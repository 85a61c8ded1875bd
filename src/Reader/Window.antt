-- ===== src/Reader/Window.antt =====
-- resp/bufio.go: the unread bytes of a valid reader.
use redeo.Base.{
  ℕ, zero, suc, ◌+◌, ◌-◌, ◌^◌, ◌≤◌, ◌≡◌, refl, ap, sym, ◌∙◌, some, [], ◌∷◌, ◌++◌, Bytes, arith,
  length, take, drop, get_elem?, length-take, length-drop, length-append, le→leb, append_assoc,
}
use redeo.Base.Slices.{drop-append, take-take, drop-take, drop-drop}
use redeo.Base.Int.{pos, sub64_pos}
use redeo.Monad.{ok}
use redeo.Reader.{BufioR, slice, buffered, compact}

-- Far below the range of an `int`.
abbrev pub buf_limit : ℕ
buf_limit = 2 ^ 62

get_elem?-drop : (n : ℕ) (xs : Bytes) → get_elem? xs n ≡ get_elem? (drop n xs) 0
get_elem?-drop zero xs = refl
get_elem?-drop (suc n) [] = refl
get_elem?-drop (suc n) (x ∷ xs) = get_elem?-drop n xs

head_of_take :
    (n : ℕ) (xs : Bytes) {x : ℕ} {ys : Bytes} → take n xs ≡ x ∷ ys → get_elem? xs 0 ≡ some x
head_of_take zero xs e = cc
head_of_take (suc n) [] e = cc
head_of_take (suc n) (z ∷ xs) {x} {ys} e = ap (λ l. get_elem? l 0) e

module _ {Src : Type 0} where
  pub record IsValid (b : BufioR Src) : Type 0 where
    pub r-le-w : b.r ≤ b.w
    pub w-le-length : b.w ≤ length b.buf
    pub length-le : length b.buf ≤ buf_limit

  -- the unread bytes
  abbrev pub window : BufioR Src → Bytes
  window b = take (b.w - b.r) (drop b.r b.buf)

  -- the state after the next `n` of them
  abbrev pub advanced : BufioR Src → ℕ → BufioR Src
  advanced b n = record b { r = b.r + n }

  pub length-window : (b : BufioR Src) → IsValid b → length (window b) ≡ b.w - b.r
  length-window b v = omega (arith, length-take (b.w - b.r) (drop b.r b.buf), length-drop b.r b.buf)

  pub buffered-window : (b : BufioR Src) → IsValid b → buffered b ≡ pos (length (window b))
  unfolding buffered
  buffered-window b v = sub64_pos b.w b.r v.r-le-w (omega arith) ∙ ap pos (sym (length-window b v))

  pub advanced-IsValid :
      (b : BufioR Src) (n : ℕ) → IsValid b → n ≤ length (window b) → IsValid (advanced b n)
  advanced-IsValid b n v h = omega (arith, length-window b v)

  pub window-advanced :
      (b : BufioR Src) (n : ℕ) → IsValid b → window (advanced b n) ≡ drop n (window b)
  window-advanced b n v =
      rw (drop-take n (b.w - b.r) (drop b.r b.buf), drop-drop b.r n b.buf)
        (ap (λ k. take k (drop (b.r + n) b.buf)) (omega arith))

  -- A slice inside the unread bytes.
  pub slice-window :
      (b : BufioR Src) (o n : ℕ)
      → IsValid b
      → o + n ≤ length (window b)
      → slice (b.r + o) (b.r + o + n) b.buf ≡ some (take n (drop o (window b)))
  unfolding slice
  slice-window b o n v h =
      rw
        (
          le→leb (b.r + o) (b.r + o + n) (omega arith),
          le→leb (b.r + o + n) (length b.buf) (omega (arith, length-window b v)),
        )
        (ap some (
          ap (λ k. take k (drop (b.r + o) b.buf)) (omega arith)
          ∙ sym (
              take-take n (b.w - b.r - o) (drop (b.r + o) b.buf) (omega (arith, length-window b v)))
          ∙ ap (λ l. take n (take (b.w - b.r - o) l)) (sym (drop-drop b.r o b.buf))
          ∙ ap (take n) (sym (drop-take o (b.w - b.r) (drop b.r b.buf)))))

  -- `xs` is what is read next, `ys` the unread bytes behind it.
  pub window-advanced_append :
      (b : BufioR Src) (xs ys : Bytes)
      → IsValid b
      → window b ≡ xs ++ ys
      → window (advanced b (length xs)) ≡ ys
  window-advanced_append b xs ys v e = window-advanced b (length xs) v ∙ rw e (drop-append xs ys)

  pub advanced_append-IsValid :
      (b : BufioR Src) (xs ys : Bytes)
      → IsValid b
      → window b ≡ xs ++ ys
      → IsValid (advanced b (length xs))
  advanced_append-IsValid b xs ys v e =
      advanced-IsValid b (length xs) v (omega (arith, ap length e, length-append xs ys))

  -- `compact` keeps the unread bytes.
  pub record Compacted (b b' : BufioR Src) : Type 0 where
    pub runs : compact b ≡ ok tt b'
    pub valid : IsValid b'
    pub same_window : window b' ≡ window b
    pub at_front : b'.r ≡ 0
    pub same_length : length b'.buf ≡ length b.buf
    pub same_rd : b'.rd ≡ b.rd

  -- `b.buf[b.r]` is the first unread byte.
  pub get_elem?-window :
      (b : BufioR Src) {x : ℕ} {ys : Bytes} → window b ≡ x ∷ ys → get_elem? b.buf (b.r + 0) ≡ some x
  get_elem?-window b e =
      ap (get_elem? b.buf) (omega arith)
      ∙ get_elem?-drop b.r b.buf
      ∙ head_of_take (b.w - b.r) (drop b.r b.buf) e

-- Two steps of the reader.
module _ {Src : Type 0} (b : BufioR Src) where
  pub advanced_twice :
      (xs ys : Bytes)
      → advanced (advanced b (length xs)) (length ys) ≡ advanced b (length (xs ++ ys))
  advanced_twice xs ys = ap (λ n. record b { r = n }) (omega (arith, length-append xs ys))

  -- Behind the first of two parts.
  pub behind :
      (p q more : Bytes)
      → IsValid b
      → window b ≡ (p ++ q) ++ more
      → (window b ≡ p ++ (q ++ more))
        × IsValid (advanced b (length p))
        × (window (advanced b (length p)) ≡ q ++ more)
  behind p q more v e =
      let split : window b ≡ p ++ (q ++ more) = e ∙ append_assoc p q more in
      (
        split,
        advanced_append-IsValid b p (q ++ more) v split,
        window-advanced_append b p (q ++ more) v split,
      )
