-- ===== src/ScriptData/Written/Applied.antt =====
-- The six vectors of a file of src/scriptdata/ScriptData.cpp get the addresses of their contents.
use raid_super_blt.Base.{
  ℕ, suc, ◌+◌, ◌-◌, ◌^◌, ◌<◌, ◌≡◌, refl, sym, ap, ◌∙◌, Bool, List, [], ◌∷◌, ◌++◌, append_assoc,
  length, length-append, take, take-append_length, flatten, arith,
}
use raid_super_blt.Outcome.{ok}
use raid_super_blt.ScriptData.{Item, Linkage, for_each}
use raid_super_blt.ScriptData.Writing.{offset_of, link_address}
use raid_super_blt.ScriptData.Written.Layout.{
  vec_bytes, length-vec_bytes, own_blocks, item_links, header, body, vector_links,
}
use raid_super_blt.ScriptData.Written.Linked.{for_each-append, flatten-append, off, length-raws}
use raid_super_blt.ScriptData.Written.Addressed.{
  file, owns, n2, vec, contents, heads, bodies, up_to, vector-linked,
}

pub offset_of-front :
    (blocks front rest : List (List ℕ)) (n : ℕ)
    → blocks ≡ front ++ rest
    → length front ≡ n
    → length (flatten front) < 2 ^ 32
    → offset_of blocks n ≡ length (flatten front)
unfolding offset_of
offset_of-front blocks front rest n e at small =
    let place : take n blocks ≡ front =
      ap (λ t. take n t) e
      ∙ (ap (λ k. take k (front ++ rest)) (sym at) ∙ take-append_length front rest) in
    omega (arith, ap (λ t. length (flatten t)) place)

module _ (b : Bool) (num ref : ℕ → ℕ) (blocks : List (List ℕ)) where
  pub length-header :
      (gs : List (List Item)) (f : ℕ → ℕ) (n m : ℕ)
      → length (header b num ref f n gs) ≡ length (header b num ref (λ _. 0) m gs)
  unfolding header
  length-header [] f n m = refl
  length-header (items ∷ gs) f n m =
      let k = length (own_blocks b num ref items) in
      omega (
        arith,
        length-append (vec_bytes b num ref (length items) (f n))
            (header b num ref f (suc n + k) gs),
        length-append (vec_bytes b num ref (length items) 0)
            (header b num ref (λ _. 0) (suc m + k) gs),
        length-vec_bytes b num ref (length items) (f n),
        length-vec_bytes b num ref (length items) 0,
        length-header gs f (suc n + k) (suc m + k),
      )

  size3 :
      (h u e done : List ℕ)
      → length ((h ++ (u ++ e)) ++ done) ≡ length h + (length u + length e) + length done
  size3 h u e done =
      omega (arith, length-append (h ++ (u ++ e)) done, length-append h (u ++ e), length-append u e)

  -- The hypotheses of the next round from those of one.
  module _ (items : List Item) (gs : List (List Item)) (n : ℕ) (h e done : List ℕ)
      (front : List (List ℕ)) (split : blocks ≡ front ++ body b num ref (λ _. 0) n (items ∷ gs))
      (count : length front ≡ n)
      (total : length (flatten front)
        ≡ length ((h ++ (header b num ref (λ _. 0) n (items ∷ gs) ++ e)) ++ done))
      (small : length (file b num ref blocks (λ _. 0) n (items ∷ gs) h e done) < 2 ^ 32 - 1) where
    abbrev own : List (List ℕ)
    own = owns b num ref blocks items gs n h e done

    abbrev k : ℕ
    k = n2 b num ref blocks items gs n h e done

    abbrev zeros : List ℕ
    zeros = contents b num ref blocks items gs n h e done (λ _. 0)

    abbrev v : List ℕ
    v = vec b num ref blocks items gs n h e done (off b num ref blocks n)

    abbrev v0 : List ℕ
    v0 = vec b num ref blocks items gs n h e done 0

    abbrev rest : List ℕ
    rest = heads b num ref blocks items gs n h e done

    abbrev behind : List (List ℕ)
    behind = bodies b num ref blocks items gs n h e done

    abbrev next_done : List ℕ
    next_done =
        done
        ++ (contents b num ref blocks items gs n h e done (off b num ref blocks) ++ flatten own)

    same_vec : length v ≡ length v0
    same_vec =
        length-vec_bytes b num ref (length items) (off b num ref blocks n)
        ∙ sym (length-vec_bytes b num ref (length items) 0)

    before_size :
        length ((h ++ ((v0 ++ rest) ++ e)) ++ done)
        ≡ length h + (length v0 + length rest + length e) + length done
    before_size = size3 h (v0 ++ rest) e done ∙ omega (arith, length-append v0 rest)

    whole_size :
        length (file b num ref blocks (λ _. 0) n (items ∷ gs) h e done)
        ≡ length h
          + (length v0 + length rest + length e)
          + length done
          + (length zeros + (length (flatten own) + length (flatten behind)))
    unfolding header body
    whole_size =
        ap length
          (sym (append_assoc (h ++ ((v0 ++ rest) ++ e)) done (zeros ++ flatten (own ++ behind))))
        ∙ omega (
          arith,
          before_size,
          length-append ((h ++ ((v0 ++ rest) ++ e)) ++ done) (zeros ++ flatten (own ++ behind)),
          length-append zeros (flatten (own ++ behind)),
          ap length (flatten-append own behind),
          length-append (flatten own) (flatten behind),
        )

    address : off b num ref blocks n ≡ length (up_to b num ref blocks items gs n h e done)
    unfolding header
    address =
        offset_of-front blocks front _ n split count
          (omega (arith, small, total, before_size, whole_size))
        ∙ (total
            ∙ (before_size
                ∙ sym (size3 h v (rest ++ e) done ∙ omega (arith, length-append rest e, same_vec))))

    next_done_size : length next_done ≡ length done + (length zeros + length (flatten own))
    next_done_size =
        let filled = contents b num ref blocks items gs n h e done (off b num ref blocks) in
        omega (
          arith,
          length-append done (filled ++ flatten own),
          length-append filled (flatten own),
          length-raws b num ref blocks items (off b num ref blocks) (suc n) (suc n),
        )

    next_size :
        length (((h ++ v) ++ (rest ++ e)) ++ next_done)
        ≡ length h + (length v0 + length rest + length e) + length next_done
    next_size = size3 (h ++ v) rest e next_done ∙ omega (arith, length-append h v, same_vec)

    next_split : blocks ≡ (front ++ (zeros ∷ own)) ++ behind
    unfolding body
    next_split = split ∙ sym (append_assoc front (zeros ∷ own) behind)

    next_count : length (front ++ (zeros ∷ own)) ≡ k
    next_count = omega (arith, length-append front (zeros ∷ own), count)

    next_total :
        length (flatten (front ++ (zeros ∷ own))) ≡ length (((h ++ v) ++ (rest ++ e)) ++ next_done)
    unfolding header
    next_total =
        ap length (flatten-append front (zeros ∷ own))
        ∙ omega (
          arith,
          length-append (flatten front) (zeros ++ flatten own),
          length-append zeros (flatten own),
          total,
          before_size,
          next_size,
          next_done_size,
        )

    next_small : length (file b num ref blocks (λ _. 0) k gs (h ++ v) e next_done) < 2 ^ 32 - 1
    next_small = omega (
      arith,
      small,
      whole_size,
      next_size,
      next_done_size,
      ap length (append_assoc ((h ++ v) ++ (rest ++ e)) next_done (flatten behind)),
      length-append (((h ++ v) ++ (rest ++ e)) ++ next_done) (flatten behind),
    )

    next_place : length (h ++ v) ≡ length h + length (vec_bytes b num ref 0 0)
    next_place = omega (
      arith,
      length-append h v,
      same_vec,
      length-vec_bytes b num ref (length items) 0,
      length-vec_bytes b num ref 0 0,
    )

    same_file :
        (file b num ref blocks) (off b num ref blocks) k gs (h ++ v) e next_done
        ≡ file b num ref blocks (off b num ref blocks) n (items ∷ gs) h e done
    unfolding header body
    same_file =
        let f = off b num ref blocks in
        let r = header b num ref f k gs in
        let q = contents b num ref blocks items gs n h e done f in
        let bs = body b num ref f k gs in
        let fo = flatten own in
        let fb = flatten bs in
        ap (λ t. t ++ (next_done ++ fb))
          (append_assoc h v (r ++ e) ∙ ap (λ t. h ++ t) (sym (append_assoc v r e)))
        ∙ ap (λ t. (h ++ ((v ++ r) ++ e)) ++ t)
            (append_assoc done (q ++ fo) fb
              ∙ ap (λ t. done ++ t)
                  (append_assoc q fo fb ∙ ap (λ t. q ++ t) (sym (flatten-append own bs))))

  pub vectors-linked :
      (gs : List (List Item)) (n : ℕ) (h e done : List ℕ) (front : List (List ℕ))
      → blocks ≡ front ++ body b num ref (λ _. 0) n gs
      → length front ≡ n
      → length (flatten front) ≡ length ((h ++ (header b num ref (λ _. 0) n gs ++ e)) ++ done)
      → length (file b num ref blocks (λ _. 0) n gs h e done) < 2 ^ 32 - 1
      → for_each
          (link_address b blocks)
          (file b num ref blocks (λ _. 0) n gs h e done)
          (vector_links b num ref n (length h) gs)
        ≡ ok (file b num ref blocks (off b num ref blocks) n gs h e done)
  unfolding for_each header body vector_links
  vectors-linked [] n h e done front split count total small = refl
  vectors-linked (items ∷ gs) n h e done front split count total small =
      let here = address items gs n h e done front split count total small in
      let first : List Linkage =
        record { block = n; out = 0; pos = length h + 8 }
        ∷ item_links b num ref (suc n) n 0 items in
      let v1 = v items gs n h e done front split count total small in
      let done1 = next_done items gs n h e done front split count total small in
      let k1 = n2 b num ref blocks items gs n h e done in
      for_each-append (link_address b blocks)
        (file b num ref blocks (λ _. 0) n (items ∷ gs) h e done) first
        (vector_links b num ref k1 (length h + length (vec_bytes b num ref 0 0)) gs) _
        (vector-linked b num ref blocks items gs n h e done here small)
      ∙ (ap
            (λ m.
              for_each (link_address b blocks)
                (file b num ref blocks (λ _. 0) k1 gs (h ++ v1) e done1)
                (vector_links b num ref k1 m gs))
            (sym (next_place items gs n h e done front split count total small))
          ∙ (vectors-linked gs k1 (h ++ v1) e done1 _
                (next_split items gs n h e done front split count total small)
                (next_count items gs n h e done front split count total small)
                (next_total items gs n h e done front split count total small)
                (next_small items gs n h e done front split count total small)
              ∙ ap ok (same_file items gs n h e done front split count total small)))
