-- ===== src/Tape/Blocks.antt =====
-- The blocks of a file on a backup tape, written and read back.
use rsts_e_v7_2_lookalike.Prelude.{
  ℕ, zero, suc, ◌-◌, ◌<◌, ◌≤◌, ◌≡◌, refl, ap, ◌∙◌, false, [], ◌∷◌, ◌++◌, arith, ◌==◌, length, take,
  drop, append-nil, Bool-cases, inl, inr, leb, leb→le, leb-false→lt,
}
use mathlib.Core.Path.{subst}
use rsts_e_v7_2_lookalike.Bytes.Reader.{
  Bytes, pure, ◌>>=◌, chunk, Reads, Reads-bind, Reads-end, Reads-chunk,
}
use rsts_e_v7_2_lookalike.Tape.{padded, put_blocks, read_body}

pub length-padded : (n : ℕ) (xs : Bytes) → length (padded n xs) ≡ n
unfolding padded
length-padded zero xs = refl
length-padded (suc n) [] = omega (arith, length-padded n [])
length-padded (suc n) (x ∷ xs) = omega (arith, length-padded n xs)

-- A block that the text fills.
padded_full : (n : ℕ) (xs : Bytes) → n ≤ length xs → padded n xs ++ drop n xs ≡ xs
unfolding padded
padded_full zero xs h = refl
padded_full (suc n) [] h = absurd (omega (arith, h))
padded_full (suc n) (x ∷ xs) h = ap (λ l. x ∷ l) (padded_full n xs (omega (arith, h)))

-- A block that the text ends in.
padded_last : (n : ℕ) (xs : Bytes) → length xs ≤ n → take (length xs) (padded n xs) ≡ xs
unfolding padded
padded_last n [] h = refl
padded_last zero (x ∷ xs) h = absurd (omega (arith, h))
padded_last (suc n) (x ∷ xs) h = ap (λ l. x ∷ l) (padded_last n xs (omega (arith, h)))

take_long : (n : ℕ) (xs : Bytes) → length xs ≤ n → take n xs ≡ xs
take_long zero [] h = refl
take_long zero (x ∷ xs) h = absurd (omega (arith, h))
take_long (suc n) [] h = refl
take_long (suc n) (x ∷ xs) h = ap (λ l. x ∷ l) (take_long n xs (omega (arith, h)))

drop_long : (n : ℕ) (xs : Bytes) → length xs ≤ n → drop n xs ≡ []
drop_long zero [] h = refl
drop_long zero (x ∷ xs) h = absurd (omega (arith, h))
drop_long (suc n) [] h = refl
drop_long (suc n) (x ∷ xs) h = drop_long n xs (omega (arith, h))

length-drop : (n : ℕ) (xs : Bytes) → length (drop n xs) ≡ length xs - n
length-drop zero xs = omega arith
length-drop (suc n) [] = omega arith
length-drop (suc n) (x ∷ xs) = omega (arith, length-drop n xs)

Reads-padded : (n : ℕ) (xs : Bytes) → Reads (chunk n) (padded n xs) (padded n xs)
Reads-padded n xs =
    subst (λ k. Reads (chunk k) (padded n xs) (padded n xs)) (length-padded n xs)
      (Reads-chunk (padded n xs))

-- The first block of a body, cut to what is left, and the rest of it.
first_block :
    (block : ℕ) (body : Bytes) → take (length body) (padded block body) ++ drop block body ≡ body
first_block block body = elim (Bool-cases (leb block (length body))) [
  | inl full ↦
      let fits = leb→le block (length body) full in
      let whole =
        take_long (length body) (padded block body)
          (let size = length-padded block body in omega (arith, size, fits)) in
      ap (λ t. t ++ drop block body) whole ∙ padded_full block body fits
  | inr short ↦
      let fits = leb-false→lt block (length body) short in
      let part = padded_last block body (omega (arith, fits)) in
      let none_left = drop_long block body (omega (arith, fits)) in
      ap (λ t. t ++ drop block body) part ∙ ap (λ d. body ++ d) none_left ∙ append-nil body
]

pub Reads-put_blocks :
    (block m n : ℕ) (body : Bytes)
    → 0 < block
    → length body ≤ m
    → length body ≤ n
    → Reads (read_body block n (length body)) (put_blocks block m body) body
unfolding read_body put_blocks
Reads-put_blocks block zero zero [] positive hm hn = record { run = λ rest. refl }
Reads-put_blocks block zero (suc n) [] positive hm hn = record { run = λ rest. refl }
Reads-put_blocks block (suc m) zero [] positive hm hn = record { run = λ rest. refl }
Reads-put_blocks block (suc m) (suc n) [] positive hm hn = record { run = λ rest. refl }
Reads-put_blocks block zero n (b ∷ body) positive hm hn = absurd (omega (arith, hm))
Reads-put_blocks block (suc m) zero (b ∷ body) positive hm hn = absurd (omega (arith, hn))
Reads-put_blocks block (suc m) (suc n) (b ∷ body) positive hm hn =
    let size = length-drop block (b ∷ body) in
    let rest : Reads (read_body block n (length (b ∷ body) - block))
        (put_blocks block m (drop block (b ∷ body))) (drop block (b ∷ body)) =
      subst
        (λ k.
          Reads (read_body block n k) (put_blocks block m (drop block (b ∷ body)))
            (drop block (b ∷ body)))
        size
        (Reads-put_blocks block m n (drop block (b ∷ body)) positive
          (omega (arith, size, hm, positive)) (omega (arith, size, hn, positive))) in
    let more : (length (b ∷ body) == 0) ≡ false = ground arith in
    let read : Reads
        (chunk block >>= λ c. read_body block n (length (b ∷ body) - block) >>= λ r.
          pure (take (length (b ∷ body)) c ++ r))
        (padded block (b ∷ body) ++ put_blocks block m (drop block (b ∷ body)))
        (take (length (b ∷ body)) (padded block (b ∷ body)) ++ drop block (b ∷ body)) =
      Reads-bind
        (λ c. read_body block n (length (b ∷ body) - block) >>= λ r.
          pure (take (length (b ∷ body)) c ++ r))
        (Reads-padded block (b ∷ body))
        (Reads-end (λ r. take (length (b ∷ body)) (padded block (b ∷ body)) ++ r) rest) in
    rw more (
      subst
        (Reads
          (chunk block >>= λ c. read_body block n (length (b ∷ body) - block) >>= λ r.
            pure (take (length (b ∷ body)) c ++ r))
          (padded block (b ∷ body) ++ put_blocks block m (drop block (b ∷ body))))
        (first_block block (b ∷ body)) read)
