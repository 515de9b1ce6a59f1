-- ===== src/Diesel/Contents/Chunks.antt =====
-- The loop of ReadContents of src/dbutil/DB.cpp over the blocks of a bundle.
use raid_super_blt.Base.{
  ℕ, ◌+◌, ◌-◌, ◌≤◌, ◌<◌, ◌≡◌, refl, sym, ap, ◌∙◌, false, List, [], ◌∷◌, ◌++◌, append_assoc,
  append-nil, length, take, drop, replicate, min, length-append, length-take, length-drop,
  take-append_length, take-append_ge, take-append_left, drop-append_left, drop-append_ge, flatten,
  ltb, lt→ltb, arith, tests, drop-replicate, Bool-cases, inl, inr, if◌then◌else◌, ◌==◌, take_all,
}
use raid_super_blt.Outcome.{ok}
use raid_super_blt.Diesel.Contents.{
  Uncompress, block_size, fetch_block, write_at, copy_block, read_blocks,
}

-- Each chunk decompresses to the block beside it.
abbrev pub Fetches : Uncompress → List ℕ → List ℕ → List (List ℕ) → Type 0
Fetches uncompress fi [] [] = Unit {0}
Fetches uncompress fi [] (b ∷ bs) = ⊥
Fetches uncompress fi (c ∷ cs) [] = ⊥
Fetches uncompress fi (c ∷ cs) (b ∷ bs) =
    (fetch_block uncompress fi c ≡ ok b) × Fetches uncompress fi cs bs

-- All blocks but the last have the full size.
abbrev pub AllFull : List (List ℕ) → Type 0
AllFull [] = Unit {0}
AllFull (b ∷ []) = length b ≤ block_size
AllFull (b ∷ c ∷ bs) = (length b ≡ block_size) × AllFull (c ∷ bs)

-- Writing behind what is written already.
write_at-append :
    (written zeros bytes : List ℕ)
    → write_at (written ++ zeros) (length written) bytes
      ≡ (written ++ bytes) ++ drop (length bytes) zeros
unfolding write_at
write_at-append written zeros bytes =
    ap (λ t. t ++ (bytes ++ drop (length written + length bytes) (written ++ zeros)))
      (take-append_length written zeros)
    ∙ (ap (λ t. written ++ (bytes ++ t))
          (drop-append_ge (length written + length bytes) written zeros (omega arith)
            ∙ ap (λ k. drop k zeros) (omega arith))
        ∙ sym (append_assoc written bytes (drop (length bytes) zeros)))

-- The result while `written` stands at its front.
abbrev pub filled : ℕ → List ℕ → List ℕ
filled real written = written ++ replicate (real - length written) 0

-- What a copy adds to the front of the result.
abbrev more : ℕ → List ℕ → List ℕ → List ℕ
more real written block = written ++ take (min (length block) (real - length written)) block

length-more :
    (real : ℕ) (written block : List ℕ)
    → length written ≤ real
    → length (more real written block) ≡ min (length written + length block) real
length-more real written block h = omega (
  arith,
  length-append written (take (min (length block) (real - length written)) block),
  length-take (min (length block) (real - length written)) block,
)

write_at-filled :
    (real : ℕ) (written block : List ℕ)
    → write_at
        (filled real written)
        (length written)
        (take (min (length block) (real - length written)) block)
      ≡ filled real (more real written block)
write_at-filled real written block =
    let part = take (min (length block) (real - length written)) block in
    write_at-append written (replicate (real - length written) 0) part
    ∙ ap (λ t. (written ++ part) ++ t)
        (drop-replicate (length part) (real - length written) 0
          ∙ ap (λ k. replicate k 0) (omega (arith, length-append written part)))

-- The bytes of the range are the same, counted from the block or from what was copied of it.
take-more :
    (real : ℕ) (written block rest : List ℕ)
    → length written ≤ real
    → take real (more real written block ++ rest) ≡ take real (written ++ (block ++ rest))
take-more real written block rest h =
    elim (Bool-cases (ltb (real - length written) (length block))) [
      | inl long ↦
          let cut =
            ap (λ k. written ++ take k block) {x = min (length block) (real - length written)}
              {y = real - length written} (omega (tests, long)) in
          ap (λ t. take real (t ++ rest)) cut
          ∙ (take-append_left real (written ++ take (real - length written) block) rest (
                omega (
                  tests,
                  long,
                  length-append written (take (real - length written) block),
                  length-take (real - length written) block,
                ))
              ∙ (take_all real (written ++ take (real - length written) block) (
                    omega (
                      tests,
                      long,
                      length-append written (take (real - length written) block),
                      length-take (real - length written) block,
                    ))
                  ∙ sym (
                      take-append_ge real written (block ++ rest) h
                      ∙ ap (λ t. written ++ t)
                          (take-append_left (real - length written) block rest
                            (omega (tests, long))))))
      | inr short ↦
          ap (λ t. take real ((written ++ t) ++ rest))
            (ap (λ k. take k block) {x = min (length block) (real - length written)}
                {y = length block} (omega (tests, short))
              ∙ take_all (length block) block (omega arith))
          ∙ ap (take real) (append_assoc written block rest)
    ]

filled_full :
    (real : ℕ) (written rest : List ℕ)
    → length written ≡ real
    → filled real written ≡ take real (written ++ rest)
filled_full real written rest e =
    ap (λ k. written ++ replicate k 0) {x = real - length written} {y = 0} (omega arith)
    ∙ (append-nil written
        ∙ sym (
            take-append_left real written rest (omega arith) ∙ take_all real written (omega arith)))

-- One copy, where the block is entered at `s`.
copy_block_lem :
    (real r d s : ℕ) (written b : List ℕ)
    → (if d == 0 then r else 0) ≡ s
    → s ≤ length b
    → length written ≡ d
    → copy_block real r d (filled real written) b
      ≡ ok (d + (length b - s), filled real (more real written (drop s b)))
unfolding copy_block
copy_block_lem real r d s written b skip fits at =
    rw (skip, not_short)
      (ap (λ t. ok (d + (length b - s), t))
        (ap (λ k. write_at (filled real written) d (take k (drop s b)))
            {x = min (length b - s) (real - d)}
            {y = min (length (drop s b)) (real - length written)}
            (omega (arith, length-drop s b, at))
          ∙ (ap
                (λ k.
                  write_at (filled real written) k
                    (take (min (length (drop s b)) (real - length written)) (drop s b)))
                (sym at)
              ∙ write_at-filled real written (drop s b))))
  where
    not_short : ltb (length b) s ≡ false
    not_short = ground arith

-- The loop once a first byte is copied: it fills the result from the blocks that follow.
read_blocks_rest :
    (uncompress : Uncompress) (fi : List ℕ) (real r d : ℕ) (cs : List ℕ) (bs : List (List ℕ))
    (written : List ℕ)
    → 0 < d
    → length written ≡ min d real
    → real ≤ d + length (flatten bs)
    → Fetches uncompress fi cs bs
    → read_blocks uncompress fi real r cs d (filled real written)
      ≡ ok (take real (written ++ flatten bs))
unfolding read_blocks
read_blocks_rest uncompress fi real r d [] [] written started at enough f =
    rw no_more (ap ok (filled_full real written [] (omega arith)))
  where
    no_more : ltb d real ≡ false
    no_more = ground arith
read_blocks_rest uncompress fi real r d [] (b ∷ bs) written started at enough f = elim f [ ]
read_blocks_rest uncompress fi real r d (c ∷ cs) [] written started at enough f = elim f [ ]
read_blocks_rest uncompress fi real r d (c ∷ cs) (b ∷ bs) written started at enough f =
    elim (Bool-cases (ltb d real)) [
      | inl going ↦
          rw
            (
              going,
              f.0,
              copy_block_lem real r d 0 written b (ground arith) (omega arith)
                  (omega (tests, going)),
            )
            (read_blocks_rest uncompress fi real r (d + (length b - 0)) cs bs (more real written b)
                (omega arith) (length-more real written b (omega arith) ∙ omega (tests, going))
                (omega (arith, length-append b (flatten bs))) f.1
              ∙ ap ok (take-more real written b (flatten bs) (omega arith)))
      | inr done ↦
          rw done (ap ok (filled_full real written (b ++ flatten bs) (omega (tests, done))))
    ]

-- The first block reaches beyond the place at which it is entered.
first_reaches :
    (r real : ℕ) (b : List ℕ) (bs : List (List ℕ))
    → r < block_size
    → 0 < real
    → AllFull (b ∷ bs)
    → r + real ≤ length (flatten (b ∷ bs))
    → r < length b
first_reaches r real b [] small some_bytes full fits =
    omega (arith, length-append {0} b (flatten []))
first_reaches r real b (c ∷ bs) small some_bytes full fits = omega (arith, full.0)

-- The loop from its start.
pub read_blocks_first :
    (uncompress : Uncompress) (fi : List ℕ) (real r : ℕ) (cs : List ℕ) (bs : List (List ℕ))
    → r < block_size
    → 0 < real
    → AllFull bs
    → r + real ≤ length (flatten bs)
    → Fetches uncompress fi cs bs
    → read_blocks uncompress fi real r cs 0 (filled real []) ≡ ok (take real (drop r (flatten bs)))
unfolding read_blocks
read_blocks_first uncompress fi real r [] [] small some_bytes full fits f = absurd (omega arith)
read_blocks_first uncompress fi real r [] (b ∷ bs) small some_bytes full fits f = elim f [ ]
read_blocks_first uncompress fi real r (c ∷ cs) [] small some_bytes full fits f = elim f [ ]
read_blocks_first uncompress fi real r (c ∷ cs) (b ∷ bs) small some_bytes full fits f =
    rw
      (
        lt→ltb 0 real some_bytes,
        f.0,
        copy_block_lem real r 0 r [] b refl (omega (arith, reaches)) refl,
      )
      (read_blocks_rest uncompress fi real r (0 + (length b - r)) cs bs (more real [] (drop r b))
          (omega (arith, reaches))
          (length-more real [] (drop r b) (omega arith) ∙ omega (arith, length-drop r b))
          (omega (arith, reaches, length-append b (flatten bs))) f.1
        ∙ ap ok (
            take-more real [] (drop r b) (flatten bs) (omega arith)
            ∙ ap (take real) (sym (drop-append_left r b (flatten bs) (omega (arith, reaches))))))
  where
    reaches : r < length b
    reaches = first_reaches r real b bs small some_bytes full fits
