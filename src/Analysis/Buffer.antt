-- ===== src/Analysis/Buffer.antt =====
-- internal/cc/runner.go: the bounded buffer that keeps the output of the child process.
use umodel_sre_rca.Common.{
  ◌⊎◌, inr, inl, ◌∙◌, ◌≡◌, refl, List, [], ◌∷◌, ◌++◌, ℕ, Bool, true, false, leb, ltb, length, arith,
  ◌≤◌, ◌+◌, ◌-◌, if◌then◌else◌, zero, suc, ◌*◌, ap, ◌<◌, Bool-cases, sym, subst,
}

pub record BoundedBuffer : Type 0 where
  pub buffer : List ℕ
  pub limit : ℕ
  pub total : ℕ
  pub truncated : Bool

abbrev pub default_max_output_bytes : ℕ
default_max_output_bytes = 64 * 1024

-- A limit that is not positive stands as 0.
abbrev pub new_bounded_buffer : ℕ → BoundedBuffer
new_bounded_buffer limit = record {
  buffer = [];
  limit = if leb limit 0 then default_max_output_bytes else limit;
  total = 0;
  truncated = false;
}

abbrev pub take : {A : Type 0} → ℕ → List A → List A
take zero xs = []
take (suc n) [] = []
take (suc n) (x ∷ xs) = x ∷ take n xs

-- `Write`; bytes.Buffer takes all that it is given. A full buffer drops even an empty slice, and says
-- so.
unfoldable pub write : List ℕ → BoundedBuffer → BoundedBuffer
write p b =
    let counted = record b { total = b.total + length p } in
    let remaining = b.limit - length b.buffer in
    if leb remaining 0
    then record counted { truncated = true }
    else if ltb remaining (length p)
    then record counted { buffer = b.buffer ++ take remaining p; truncated = true }
    else record counted { buffer = b.buffer ++ p }

unfoldable pub write_all : List (List ℕ) → BoundedBuffer → BoundedBuffer
unfolding write
write_all [] b = b
write_all (p ∷ ps) b = write_all ps (write p b)

abbrev pub joined : List (List ℕ) → List ℕ
joined [] = []
joined (p ∷ ps) = p ++ joined ps

length-append : {A : Type 0} (xs ys : List A) → length (xs ++ ys) ≡ length xs + length ys
length-append [] ys = omega arith
length-append (x ∷ xs) ys = omega (arith, length-append xs ys)

append_nil : {A : Type 0} (xs : List A) → xs ++ [] ≡ xs
append_nil [] = refl
append_nil (x ∷ xs) = ap (λ ys. x ∷ ys) (append_nil xs)

-- `short` as in `length xs ≤ n`, `long` as in `n ≤ length xs`.
take_short : {A : Type 0} (n : ℕ) (xs : List A) → length xs ≤ n → take n xs ≡ xs
take_short zero [] h = refl
take_short zero (x ∷ xs) h = absurd (omega (arith, h))
take_short (suc n) [] h = refl
take_short (suc n) (x ∷ xs) h = ap (λ ys. x ∷ ys) (take_short n xs (omega (arith, h)))

take-append_short :
    {A : Type 0} (n k : ℕ) (xs ys : List A)
    → length xs + k ≡ n
    → take n (xs ++ ys) ≡ xs ++ take k ys
take-append_short n k [] ys h = ap (λ m. take m ys) (omega (arith, h))
take-append_short zero k (x ∷ xs) ys h = absurd (omega (arith, h))
take-append_short (suc n) k (x ∷ xs) ys h =
    ap (λ zs. x ∷ zs) (take-append_short n k xs ys (omega (arith, h)))

take-append_long :
    {A : Type 0} (n : ℕ) (xs ys : List A) → n ≤ length xs → take n (xs ++ ys) ≡ take n xs
take-append_long zero xs ys h = refl
take-append_long (suc n) [] ys h = absurd (omega (arith, h))
take-append_long (suc n) (x ∷ xs) ys h =
    ap (λ zs. x ∷ zs) (take-append_long n xs ys (omega (arith, h)))

length-take_long : {A : Type 0} (n : ℕ) (xs : List A) → n ≤ length xs → length (take n xs) ≡ n
length-take_long zero xs h = refl
length-take_long (suc n) [] h = absurd (omega (arith, h))
length-take_long (suc n) (x ∷ xs) h = omega (arith, length-take_long n xs (omega (arith, h)))

append_assoc : {A : Type 0} (xs ys zs : List A) → (xs ++ ys) ++ zs ≡ xs ++ (ys ++ zs)
append_assoc [] ys zs = refl
append_assoc (x ∷ xs) ys zs = ap (λ ws. x ∷ ws) (append_assoc xs ys zs)

take_nil : {A : Type 0} (n : ℕ) → take {A = A} n [] ≡ []
take_nil zero = refl
take_nil (suc n) = refl

-- The buffer holds the start of what has been written.
record KeepsStart (b : BoundedBuffer) (written : List ℕ) : Type 0 where
  start : b.buffer ≡ take b.limit written
  count : b.total ≡ length written
  told : b.limit < length written → b.truncated ≡ true

module _ (p : List ℕ) (b : BoundedBuffer) (w : List ℕ) (k : KeepsStart b w) where
  abbrev remaining : ℕ
  remaining = b.limit - length b.buffer

  counts : b.total + length p ≡ length (w ++ p)
  counts = omega (arith, k.count, length-append w p)

  past : b.limit < length w → leb remaining 0 ≡ true
  past h =
      let full = ap (λ xs. length xs) k.start ∙ length-take_long b.limit w (omega (arith, h)) in
      ground (arith, full)

  write_full : leb remaining 0 ≡ true → KeepsStart (write p b) (w ++ p)
  unfolding write
  write_full h = rw h (record { start = stays; count = counts; told = λ _. refl })
    where
      stays : b.buffer ≡ take b.limit (w ++ p)
      stays = elim (Bool-cases (leb b.limit (length w))) [
        | inl t ↦ k.start ∙ sym (take-append_long b.limit w p (ground (arith, t)))
        | inr f ↦
            let same = k.start ∙ take_short b.limit w (ground (arith, f)) in
            let full = ap (λ xs. length xs) same in absurd (ground (arith, full, f, h))
      ]

  fits : leb remaining 0 ≡ false → (b.buffer ≡ w) × (length w + remaining ≡ b.limit)
  fits h = elim (Bool-cases (leb b.limit (length w))) [
    | inl t ↦
        let full = ap (λ xs. length xs) k.start ∙ length-take_long b.limit w (ground (arith, t)) in
        absurd (ground (arith, full, h))
    | inr f ↦
        let same = k.start ∙ take_short b.limit w (ground (arith, f)) in
        let full = ap (λ xs. length xs) same in (same, ground (arith, full, f))
  ]

  write_cut :
      leb remaining 0 ≡ false → ltb remaining (length p) ≡ true → KeepsStart (write p b) (w ++ p)
  unfolding write
  write_cut h l =
      let (same, room) = fits h in
      rw (h, l)
        (record {
          start =
              ap (λ xs. xs ++ take remaining p) same
              ∙ sym (take-append_short b.limit remaining w p room);
          count = counts;
          told = λ _. refl;
        })

  write_all_of :
      leb remaining 0 ≡ false → ltb remaining (length p) ≡ false → KeepsStart (write p b) (w ++ p)
  unfolding write
  write_all_of h l =
      let (same, room) = fits h in
      let whole = take_short remaining p (ground (arith, l)) in
      rw (h, l)
        (record {
          start =
              ap (λ xs. xs ++ p) same
              ∙ (ap (λ xs. w ++ xs) (sym whole)
                  ∙ sym (take-append_short b.limit remaining w p room));
          count = counts;
          told = λ t. absurd (ground (arith, t, length-append w p, room, l));
        })

  write-KeepsStart : KeepsStart (write p b) (w ++ p)
  write-KeepsStart = elim (Bool-cases (leb remaining 0)) [
    | inl t ↦ write_full t
    | inr f ↦ elim (Bool-cases (ltb remaining (length p))) [
      | inl l ↦ write_cut f l
      | inr m ↦ write_all_of f m
    ]
  ]

fresh : (limit : ℕ) → KeepsStart (new_bounded_buffer limit) []
fresh limit = record {
  start = sym (take_nil (new_bounded_buffer limit).limit);
  count = refl;
  told = λ h. absurd (omega (arith, h));
}

write-limit : (p : List ℕ) (b : BoundedBuffer) → (write p b).limit ≡ b.limit
unfolding write
write-limit p b = elim (Bool-cases (leb (b.limit - length b.buffer) 0)) [
  | inl t ↦ rw t refl
  | inr f ↦ elim (Bool-cases (ltb (b.limit - length b.buffer) (length p))) [
    | inl l ↦ rw (f, l) refl
    | inr m ↦ rw (f, m) refl
  ]
]

write_all-KeepsStart :
    (ps : List (List ℕ)) (b : BoundedBuffer) (w : List ℕ)
    → KeepsStart b w
    → KeepsStart (write_all ps b) (w ++ joined ps)
unfolding write_all
write_all-KeepsStart [] b w k = subst (λ v. KeepsStart b v) (sym (append_nil w)) k
write_all-KeepsStart (p ∷ ps) b w k =
    subst (λ v. KeepsStart (write_all ps (write p b)) v) (append_assoc w p (joined ps))
      (write_all-KeepsStart ps (write p b) (w ++ p) (write-KeepsStart p b w k))

write_all-limit : (ps : List (List ℕ)) (b : BoundedBuffer) → (write_all ps b).limit ≡ b.limit
unfolding write_all
write_all-limit [] b = refl
write_all-limit (p ∷ ps) b = write_all-limit ps (write p b) ∙ write-limit p b

-- After any writes to a fresh buffer, it holds the first bytes of what was written, as many as its
-- limit allows; its total counts every byte; and either all of them fit, or it says that it was
-- truncated.
pub write_all-take :
    (limit : ℕ) (ps : List (List ℕ))
    → let b = write_all ps (new_bounded_buffer limit) in
      (b.buffer ≡ take (new_bounded_buffer limit).limit (joined ps))
      × (b.total ≡ length (joined ps))
      × ((length (joined ps) ≤ (new_bounded_buffer limit).limit) ⊎ (b.truncated ≡ true))
write_all-take limit ps =
    let k = write_all-KeepsStart ps (new_bounded_buffer limit) [] (fresh limit) in
    let same = write_all-limit ps (new_bounded_buffer limit) in
    (
      k.start ∙ ap (λ n. take n (joined ps)) same,
      k.count,
      elim (Bool-cases (leb (length (joined ps)) (new_bounded_buffer limit).limit)) [
        | inl t ↦ inl (ground (arith, t))
        | inr f ↦ inr (k.told (ground (arith, same, f)))
      ],
    )
