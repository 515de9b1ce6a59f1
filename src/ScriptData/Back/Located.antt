-- ===== src/ScriptData/Back/Located.antt =====
-- Where the blocks of a file of src/scriptdata/ScriptData.cpp stand.
use raid_super_blt.Base.{
  ℕ, zero, suc, ◌+◌, ◌-◌, ◌^◌, ◌<◌, ◌≡◌, refl, ap, ◌∙◌, List, [], ◌∷◌, ◌++◌, length, length-append,
  take, flatten, le_bytes, arith,
}
use raid_super_blt.ScriptData.{Item, Heap, WriteInfo}
use raid_super_blt.ScriptData.Writing.{offset_of}
use raid_super_blt.ScriptData.Written.Layout.{ptr, own_blocks, header, body}
use raid_super_blt.ScriptData.Written.Linked.{flatten-append, length-raws}
use raid_super_blt.ScriptData.Written.Applied.{length-header, offset_of-front}
use raid_super_blt.ScriptData.Written.File.{
  w, nums, refs_of, items_by_type, head_block, blocks_with, address_of, layout,
}

-- Two lists of blocks of the same lengths.
abbrev SameShape : List (List ℕ) → List (List ℕ) → Type 0
SameShape [] [] = Unit
SameShape [] (y ∷ ys) = ⊥
SameShape (x ∷ xs) [] = ⊥
SameShape (x ∷ xs) (y ∷ ys) = (length x ≡ length y) × SameShape xs ys

SameShape-refl : (xs : List (List ℕ)) → SameShape xs xs
SameShape-refl [] = tt
SameShape-refl (x ∷ xs) = (refl, SameShape-refl xs)

SameShape-append :
    (xs ys zs ws : List (List ℕ))
    → SameShape xs ys
    → SameShape zs ws
    → SameShape (xs ++ zs) (ys ++ ws)
SameShape-append [] [] zs ws h k = k
SameShape-append [] (y ∷ ys) zs ws h k = absurd h
SameShape-append (x ∷ xs) [] zs ws h k = absurd h
SameShape-append (x ∷ xs) (y ∷ ys) zs ws h k = (h.0, SameShape-append xs ys zs ws h.1 k)

length-flatten-take :
    (xs ys : List (List ℕ)) (n : ℕ)
    → SameShape xs ys
    → length (flatten (take n xs)) ≡ length (flatten (take n ys))
length-flatten-take xs ys zero e = refl
length-flatten-take [] [] (suc n) e = refl
length-flatten-take [] (y ∷ ys) (suc n) e = absurd e
length-flatten-take (x ∷ xs) [] (suc n) e = absurd e
length-flatten-take (x ∷ xs) (y ∷ ys) (suc n) e = omega (
  arith,
  length-append x (flatten (take n xs)),
  length-append y (flatten (take n ys)),
  length-flatten-take xs ys n e.1,
  e.0,
)

length-flatten-SameShape :
    (xs ys : List (List ℕ)) → SameShape xs ys → length (flatten xs) ≡ length (flatten ys)
length-flatten-SameShape [] [] e = refl
length-flatten-SameShape [] (y ∷ ys) e = absurd e
length-flatten-SameShape (x ∷ xs) [] e = absurd e
length-flatten-SameShape (x ∷ xs) (y ∷ ys) e = omega (
  arith,
  length-append x (flatten xs),
  length-append y (flatten ys),
  length-flatten-SameShape xs ys e.1,
  e.0,
)

module _ (heap : Heap) (info : WriteInfo) (root : ℕ) where
  abbrev zeros : List (List ℕ)
  zeros = blocks_with heap info root (λ _. 0)

  abbrev pub f : ℕ → ℕ
  f = address_of heap info root

  abbrev pub linked : List (List ℕ)
  linked = blocks_with heap info root f

  body-SameShape :
      (gs : List (List Item)) (n : ℕ)
      → SameShape
          (body (w heap info root) (nums heap info root) (refs_of heap info root) f n gs)
          (body (w heap info root) (nums heap info root) (refs_of heap info root) (λ _. 0) n gs)
  unfolding body
  body-SameShape [] n = tt
  body-SameShape (items ∷ gs) n =
      let owns =
        own_blocks (w heap info root) (nums heap info root) (refs_of heap info root) items in
      (
        length-raws (w heap info root) (nums heap info root) (refs_of heap info root) linked items f
            (suc n) (suc n),
        SameShape-append owns owns _ _ (SameShape-refl owns)
            (body-SameShape gs (suc n + length owns)),
      )

  linked-SameShape : SameShape linked zeros
  unfolding blocks_with head_block
  linked-SameShape =
      let start = ptr (w heap info root) (nums heap info root) (refs_of heap info root) 0 in
      let gs = items_by_type heap info root in
      let e = le_bytes 4 (refs_of heap info root root) in
      let h = header (w heap info root) (nums heap info root) (refs_of heap info root) f 1 gs in
      let h0 =
        header (w heap info root) (nums heap info root) (refs_of heap info root) (λ _. 0) 1 gs in
      (
        omega (
          arith,
          length-append start (h ++ e),
          length-append start (h0 ++ e),
          length-append h e,
          length-append h0 e,
          length-header (w heap info root) (nums heap info root) (refs_of heap info root) linked gs
              f 1 1,
        ),
        body-SameShape gs 1,
      )

  pub length-layout : length (layout heap info root) ≡ length (flatten zeros)
  unfolding layout
  length-layout = length-flatten-SameShape linked zeros linked-SameShape

  module _ (small : length (flatten zeros) < 2 ^ 32 - 1) where
    -- A block stands at its address.
    pub located :
        (front rest : List (List ℕ)) (n : ℕ)
        → linked ≡ front ++ rest
        → length front ≡ n
        → (f n ≡ length (flatten front)) × (layout heap info root ≡ flatten front ++ flatten rest)
    unfolding address_of layout offset_of
    located front rest n e at =
        let whole : layout heap info root ≡ flatten front ++ flatten rest =
          ap flatten e ∙ flatten-append front rest in
        let within : length (flatten front) < 2 ^ 32 = omega (
          arith,
          small,
          length-layout,
          ap length whole,
          length-append (flatten front) (flatten rest),
        ) in
        let same = length-flatten-take linked zeros n linked-SameShape in
        (omega (arith, same, offset_of-front linked front rest n e at within, within), whole)
