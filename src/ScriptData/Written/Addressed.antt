-- ===== src/ScriptData/Written/Addressed.antt =====
-- One vector of a file of src/scriptdata/ScriptData.cpp gets the address of its contents, and then
-- they get theirs.
use raid_super_blt.Base.{
  ℕ, suc, ◌+◌, ◌-◌, ◌%◌, ◌^◌, ◌<◌, ◌≡◌, sym, ap, ◌∙◌, subst, Bool, List, [], ◌∷◌, ◌++◌,
  append_assoc, length, length-append, flatten, le_bytes, length-le_bytes, arith,
}
use raid_super_blt.Outcome.{ok}
use raid_super_blt.ScriptData.{Item, Linkage, for_each}
use raid_super_blt.ScriptData.Writing.{offset_of, link_address}
use raid_super_blt.ScriptData.Written.Layout.{
  ptr, vec_bytes, length-vec_bytes, raws, own_blocks, item_links, header, body,
}
use raid_super_blt.ScriptData.Written.Linked.{
  for_each-append, flatten-append, off, own-linked, items-linked,
}

module _ (b : Bool) (num ref : ℕ → ℕ) (blocks : List (List ℕ)) where
  abbrev pub file : (ℕ → ℕ) → ℕ → List (List Item) → List ℕ → List ℕ → List ℕ → List ℕ
  file f n gs h e done =
      (h ++ (header b num ref f n gs ++ e)) ++ (done ++ flatten (body b num ref f n gs))

  -- One vector: its address, and then its contents.
  module _ (items : List Item) (gs : List (List Item)) (n : ℕ) (h e done : List ℕ) where
    abbrev pub owns : List (List ℕ)
    owns = own_blocks b num ref items

    abbrev pub n2 : ℕ
    n2 = suc n + length owns

    abbrev pub vec : ℕ → List ℕ
    vec q = vec_bytes b num ref (length items) q

    abbrev pub contents : (ℕ → ℕ) → List ℕ
    contents f = raws b num ref f (suc n) items

    abbrev pub heads : List ℕ
    heads = header b num ref (λ _. 0) n2 gs

    abbrev pub bodies : List (List ℕ)
    bodies = body b num ref (λ _. 0) n2 gs

    abbrev pub up_to : List ℕ
    up_to = (h ++ (vec (off b num ref blocks n) ++ (heads ++ e))) ++ done

    pub vector-linked :
        off b num ref blocks n ≡ length up_to
        → length (file (λ _. 0) n (items ∷ gs) h e done) < 2 ^ 32 - 1
        → for_each (link_address b blocks) (file (λ _. 0) n (items ∷ gs) h e done) (
            record { block = n; out = 0; pos = length h + 8 }
            ∷ item_links b num ref (suc n) n 0 items)
          ≡ ok (
              file
                (λ _. 0)
                n2
                gs
                (h ++ vec (off b num ref blocks n))
                e
                (done ++ (contents (off b num ref blocks) ++ flatten owns)))
    unfolding for_each header body vec_bytes offset_of
    vector-linked at small =
        let f = off b num ref blocks in
        let z = flatten (owns ++ bodies) in
        let c = contents (λ _. 0) in
        let first : List Linkage = record { block = n; out = 0; pos = length h + 8 } ∷ [] in
        let own : for_each (link_address b blocks) (file (λ _. 0) n (items ∷ gs) h e done) first
            ≡ ok (up_to ++ (c ++ z)) =
          ap (λ t. for_each (link_address b blocks) t first)
            (address_first (vec 0) (done ++ (c ++ z)))
          ∙ (own-linked b num ref blocks vec (size ++ size) (ptr b num ref 0) n 0 (length h) 8 h
                ((heads ++ e) ++ (done ++ (c ++ z)))
                (λ q. sym (append_assoc size size (ptr b num ref q ++ ptr b num ref 0)))
                (omega (arith, length-append size size, length-le_bytes 4 (length items % 2 ^ 32)))
                (omega arith)
                (subst (λ t. length t < 2 ^ 32 - 1) (address_first (vec 0) (done ++ (c ++ z)))
                  small)
              ∙ ap ok (sym (contents_first (c ++ z)))) in
        for_each-append (link_address b blocks) (file (λ _. 0) n (items ∷ gs) h e done) first
          (item_links b num ref (suc n) n 0 items) _ own
        ∙ (items-linked b num ref blocks items (suc n) n 0 up_to z (omega arith)
              (omega (arith, small, same_size z))
            ∙ ap ok (next_first (contents f)))
      where
        size : List ℕ
        size = le_bytes 4 (length items % 2 ^ 32)

        address_first :
            (v t : List ℕ) → (h ++ ((v ++ heads) ++ e)) ++ t ≡ h ++ (v ++ ((heads ++ e) ++ t))
        address_first v t =
            append_assoc h ((v ++ heads) ++ e) t
            ∙ ap (λ u. h ++ u)
                (append_assoc (v ++ heads) e t
                  ∙ (append_assoc v heads (e ++ t)
                      ∙ ap (λ u. v ++ u) (sym (append_assoc heads e t))))

        contents_first :
            (w : List ℕ)
            → up_to ++ w ≡ h ++ (vec (off b num ref blocks n) ++ ((heads ++ e) ++ (done ++ w)))
        contents_first w =
            let v = vec (off b num ref blocks n) in
            append_assoc (h ++ (v ++ (heads ++ e))) done w
            ∙ (append_assoc h (v ++ (heads ++ e)) (done ++ w)
                ∙ ap (λ u. h ++ u) (append_assoc v (heads ++ e) (done ++ w)))

        same_size :
            (z : List ℕ)
            → length (up_to ++ (contents (λ _. 0) ++ z))
              ≡ length ((h ++ ((vec 0 ++ heads) ++ e)) ++ (done ++ (contents (λ _. 0) ++ z)))
        same_size z =
            let v = vec (off b num ref blocks n) in
            let t = done ++ (contents (λ _. 0) ++ z) in
            omega (
              arith,
              ap length (contents_first (contents (λ _. 0) ++ z)),
              ap length (address_first (vec 0) t),
              length-append h (v ++ ((heads ++ e) ++ t)),
              length-append v ((heads ++ e) ++ t),
              length-append h (vec 0 ++ ((heads ++ e) ++ t)),
              length-append (vec 0) ((heads ++ e) ++ t),
              length-vec_bytes b num ref (length items) (off b num ref blocks n),
              length-vec_bytes b num ref (length items) 0,
            )

        next_first :
            (c : List ℕ)
            → up_to ++ (c ++ flatten (owns ++ bodies))
              ≡ file
                  (λ _. 0)
                  n2
                  gs
                  (h ++ vec (off b num ref blocks n))
                  e
                  (done ++ (c ++ flatten owns))
        next_first c =
            let v = vec (off b num ref blocks n) in
            let fo = flatten owns in
            let fb = flatten bodies in
            ap (λ u. up_to ++ (c ++ u)) (flatten-append owns bodies)
            ∙ (append_assoc (h ++ (v ++ (heads ++ e))) done (c ++ (fo ++ fb))
                ∙ (ap (λ u. u ++ (done ++ (c ++ (fo ++ fb)))) (sym (append_assoc h v (heads ++ e)))
                    ∙ ap (λ u. ((h ++ v) ++ (heads ++ e)) ++ u)
                        (ap (λ u. done ++ u) (sym (append_assoc c fo fb))
                          ∙ sym (append_assoc done (c ++ fo) fb))))
