-- ===== src/Tunnel/Http/Buffers.antt =====
-- `deBuffer` of tunnel/tunnel_http1.go: the bytes that were read together with the response.
use cli.Base.{
  ℕ, zero, suc, ◌-◌, ◌≡◌, refl, subst, sym, ap, ◌∙◌, Bool, true, false, List, [], ◌∷◌, ◌++◌, arith,
  nat_eq, ltb, if◌then◌else◌, inl, inr,
}
use cli.Base.Lists.{length, List-cases}
use cli.Tunnel.Udp.{take, drop}

-- A connection behind a `bufio.Reader`: the bytes in the buffer, and those that follow on the
-- connection.
pub record Conn : Type 0 where
  pub buffered : List ℕ
  pub behind : List ℕ

-- The connection itself; or an `io.MultiReader` of it behind the buffer's bytes, of which so many
-- are left.
pub data Reader : Type 0 where
  underlying : Reader
  multi : ℕ → Reader

pub record Source : Type 0 where
  pub reader : Reader
  pub conn : Conn

unfoldable pub de_buffer : Conn → Source
de_buffer c =
    if nat_eq (length c.buffered) 0
    then record { reader = underlying; conn = c }
    else record { reader = multi (length c.buffered); conn = c }

abbrev smaller : ℕ → ℕ → ℕ
smaller a b = if ltb a b then a else b

-- A read of the connection that returns at most `k` bytes.
abbrev read_conn : ℕ → Conn → List ℕ × Conn
read_conn k c = (take k c.behind, record c { behind = drop k c.behind })

-- A read of the buffer, which is filled first when it is empty.
abbrev filled : Conn → List ℕ → Conn
filled c [] = record { buffered = take 4096 c.behind; behind = drop 4096 c.behind }
filled c (b ∷ bs) = c

abbrev read_buffer : ℕ → Conn → List ℕ × Conn
read_buffer k c =
    let d = filled c c.buffered in (take k d.buffered, record d { buffered = drop k d.buffered })

abbrev with_reader : Reader → List ℕ × Conn → List ℕ × Source
with_reader r (bytes, c) = (bytes, record { reader = r; conn = c })

-- `io.LimitReader` reads no more than what is left of its limit, and counts what it read.
abbrev limited : ℕ → List ℕ × Conn → List ℕ × Source
limited n (bytes, c) = with_reader (multi (n - length bytes)) (bytes, c)

abbrev read_of : ℕ → Reader → Conn → List ℕ × Source
read_of k underlying c = with_reader underlying (read_conn k c)
read_of k (multi zero) c = with_reader underlying (read_conn k c)
read_of k (multi (suc n)) c = limited (suc n) (read_buffer (smaller k (suc n)) c)

-- One read of the source that returns at most `k` bytes.
unfoldable pub read : ℕ → Source → List ℕ × Source
unfolding take drop
read k s = read_of k s.reader s.conn

-- Any number of reads, one after the other.
unfoldable pub read_all : List ℕ → Source → List ℕ × Source
unfolding read
read_all [] s = ([], s)
read_all (k ∷ ks) s =
    let (bytes, t) = read k s in let (more, u) = read_all ks t in (bytes ++ more, u)

-- What the source has still to deliver.
abbrev to_come : Reader → Conn → List ℕ
to_come underlying c = c.behind
to_come (multi n) c = c.buffered ++ c.behind

abbrev pub left : Source → List ℕ
left s = to_come s.reader s.conn

-- The limit is what the buffer holds.
abbrev Fits : Reader → Conn → Type 0
Fits underlying c = Unit
Fits (multi n) c = length c.buffered ≡ n

take-drop : (n : ℕ) (xs : List ℕ) → take n xs ++ drop n xs ≡ xs
unfolding take drop
take-drop zero xs = refl
take-drop (suc n) [] = refl
take-drop (suc n) (x ∷ xs) = ap (λ l. x ∷ l) (take-drop n xs)

length-drop : (n : ℕ) (xs : List ℕ) → length (drop n xs) ≡ length xs - length (take n xs)
unfolding take drop
length-drop zero xs = omega arith
length-drop (suc n) [] = omega arith
length-drop (suc n) (x ∷ xs) = omega (arith, length-drop n xs)

app_assoc : (xs ys zs : List ℕ) → (xs ++ ys) ++ zs ≡ xs ++ (ys ++ zs)
app_assoc [] ys zs = refl
app_assoc (x ∷ xs) ys zs = ap (λ l. x ∷ l) (app_assoc xs ys zs)

-- One read takes the next bytes.
abbrev Takes : List ℕ → List ℕ × Source → Type 0
Takes before (bytes, t) = (bytes ++ left t ≡ before) × Fits t.reader t.conn

filled-some : (c : Conn) (xs : List ℕ) (n : ℕ) → length xs ≡ suc n → filled c xs ≡ c
filled-some c [] n h = absurd (omega (arith, h))
filled-some c (x ∷ xs) n h = refl

read-Takes : (k : ℕ) (r : Reader) (c : Conn) → Fits r c → Takes (to_come r c) (read_of k r c)
read-Takes k underlying c h = (take-drop k c.behind, tt)
read-Takes k (multi zero) c h = elim (List-cases c.buffered) [
  | inl e ↦ (take-drop k c.behind ∙ ap (λ b. b ++ c.behind) (sym e), tt)
  | inr (x, xs, e) ↦ absurd (omega (arith, h, ap length e))
]
read-Takes k (multi (suc n)) c h =
    let j = smaller k (suc n) in
    subst
      (λ d.
        (take j d.buffered ++ (drop j d.buffered ++ d.behind) ≡ c.buffered ++ c.behind)
        × (length (drop j d.buffered) ≡ suc n - length (take j d.buffered)))
      (sym (filled-some c c.buffered n h))
      (
        sym (app_assoc (take j c.buffered) (drop j c.buffered) c.behind)
            ∙ ap (λ b. b ++ c.behind) (take-drop j c.buffered),
        length-drop j c.buffered ∙ ap (λ l. l - length (take j c.buffered)) h,
      )

read_all-Takes : (ks : List ℕ) (s : Source) → Fits s.reader s.conn → Takes (left s) (read_all ks s)
unfolding read_all
read_all-Takes [] s h = (refl, h)
read_all-Takes (k ∷ ks) s h =
    let (bytes, t) = read_of k s.reader s.conn in
    let (first, fits) = read-Takes k s.reader s.conn h in
    let (rest, fine) = read_all-Takes ks t fits in
    let (more, u) = read_all ks t in
    (app_assoc bytes more (left u) ∙ ap (λ l. bytes ++ l) rest ∙ first, fine)

empty_if : (xs : List ℕ) → nat_eq (length xs) 0 ≡ true → xs ≡ []
empty_if [] h = refl
empty_if (x ∷ xs) h = absurd (ground (arith, h))

abbrev WholeLeft : Conn → Source → Type 0
WholeLeft c s = (left s ≡ c.buffered ++ c.behind) × Fits s.reader s.conn

of_test :
    (c : Conn) (b : Bool)
    → nat_eq (length c.buffered) 0 ≡ b
    → WholeLeft c (
        if b
        then record { reader = underlying; conn = c }
        else record { reader = multi (length c.buffered); conn = c })
of_test c true e = (ap (λ l. l ++ c.behind) (sym (empty_if c.buffered e)), tt)
of_test c false e = (refl, refl)

de_buffer-left : (c : Conn) → WholeLeft c (de_buffer c)
unfolding de_buffer
de_buffer-left c = of_test c (nat_eq (length c.buffered) 0) refl

-- Whatever sizes are asked for, what is read of the source that `deBuffer` returns is, with what is
-- left of it, the buffered bytes and then the bytes of the connection: none is lost, doubled or
-- overtaken.
pub de_buffer-reads :
    (c : Conn) (ks : List ℕ)
    → (read_all ks (de_buffer c)).0 ++ left (read_all ks (de_buffer c)).1 ≡ c.buffered ++ c.behind
de_buffer-reads c ks =
    let (same, fits) = de_buffer-left c in (read_all-Takes ks (de_buffer c) fits).0 ∙ same
