-- ===== src/ScriptData/Written/Linked.antt =====
-- `apply_blocks` of src/scriptdata/ScriptData.cpp: the addresses of the blocks stand where zeros
-- were written.
use raid_super_blt.Base.{
  ℕ, ◌+◌, ◌-◌, ◌%◌, ◌^◌, ◌<◌, ◌≡◌, refl, sym, ap, ◌∙◌, subst, Bool, false, List, [], ◌∷◌, ◌++◌,
  append_assoc, append-nil, length, length-append, take, drop, take-append_length,
  drop-append_length, flatten, ◌==◌, le_bytes, length-le_bytes, arith,
}
use raid_super_blt.Outcome.{Outcome, ok, ◌>>=◌, >>=-eq-ok}
use raid_super_blt.Diesel.Contents.{write_at}
use raid_super_blt.ScriptData.{
  Item, nil, boolean, number, string, vector, quaternion, idstring, table, Linkage, for_each,
}
use raid_super_blt.ScriptData.Writing.{pointer_size, offset_of, link_address}
use raid_super_blt.ScriptData.Written.Layout.{
  ptr, meta_value, vec_bytes, length-vec_bytes, raw, own_block, link_place, own_links, raws,
  item_links,
}

pub write_at-over :
    (x old new y : List ℕ) (n : ℕ)
    → n ≡ length x
    → length old ≡ length new
    → write_at (x ++ (old ++ y)) n new ≡ x ++ (new ++ y)
unfolding write_at
write_at-over x old new y n at same =
    let rest : drop (n + length new) (x ++ (old ++ y)) ≡ y =
      ap (λ t. drop (n + length new) t) (sym (append_assoc x old y))
      ∙ (ap (λ k. drop k ((x ++ old) ++ y)) {x = n + length new} {y = length (x ++ old)}
            (omega (arith, length-append x old))
          ∙ drop-append_length (x ++ old) y) in
    rw rest (
      ap (λ t. t ++ (new ++ y))
        (ap (λ k. take k (x ++ (old ++ y))) at ∙ take-append_length x (old ++ y)))

pub for_each-append :
    {S A : Type 0} (f : S → A → Outcome S) (s : S) (xs ys : List A) (t : S)
    → for_each f s xs ≡ ok t
    → for_each f s (xs ++ ys) ≡ for_each f t ys
unfolding for_each
for_each-append f s [] ys t e = ap (λ m. m >>= λ u. for_each f u ys) e
for_each-append f s (x ∷ xs) ys t e =
    let (u, first, later) = >>=-eq-ok (f s x) (λ v. for_each f v xs) e in
    rw first (for_each-append f u xs ys t later)

pub flatten-append : (xs ys : List (List ℕ)) → flatten (xs ++ ys) ≡ flatten xs ++ flatten ys
flatten-append [] ys = refl
flatten-append (x ∷ xs) ys =
    ap (λ t. x ++ t) (flatten-append xs ys) ∙ sym (append_assoc x (flatten xs) (flatten ys))

module _ (b : Bool) (num ref : ℕ → ℕ) (blocks : List (List ℕ)) where
  abbrev pub off : ℕ → ℕ
  off = offset_of blocks

  -- A link_address whose place stands behind some bytes.
  link-over :
      (l : Linkage) (x y : List ℕ)
      → off l.out + l.pos ≡ length x
      → length x < 2 ^ 32 - 1
      → link_address b blocks (x ++ (ptr b num ref 0 ++ y)) l
        ≡ ok (x ++ (ptr b num ref (off l.block) ++ y))
  unfolding link_address
  link-over l x y at small =
      let located : (off l.out == 0xFFFFFFFF) ≡ false = ground arith in
      rw (link_address, located)
        (ap ok (
          write_at-over x (ptr b num ref 0) (ptr b num ref (off l.block)) y _ (omega arith) (
            length-le_bytes (pointer_size b) 0
            ∙ sym (length-le_bytes (pointer_size b) (off l.block)))))

  pub length-raw :
      (p : ℕ) (item : Item) → length (raw b num ref p item) ≡ length (raw b num ref 0 item)
  unfolding raw
  length-raw p nil = refl
  length-raw p (boolean v) = refl
  length-raw p (number val) = refl
  length-raw p (vector x y z) = refl
  length-raw p (quaternion x y z w) = refl
  length-raw p (idstring val) = refl
  length-raw p (string val) = omega (
    arith,
    length-append (ptr b num ref 0) (ptr b num ref p),
    length-append (ptr b num ref 0) (ptr b num ref 0),
    length-le_bytes (pointer_size b) p,
    length-le_bytes (pointer_size b) 0,
  )
  length-raw p (table meta items) =
      let m = ptr b num ref (meta_value b num ref meta) in
      omega (
        arith,
        length-append m (vec_bytes b num ref (length items) p),
        length-append m (vec_bytes b num ref (length items) 0),
        length-vec_bytes b num ref (length items) p,
        length-vec_bytes b num ref (length items) 0,
      )

  -- A link_address into the bytes `r` of an item, where `before` and `behind` stand around the address.
  pub own-linked :
      (r : ℕ → List ℕ) (before behind : List ℕ) (n out pos place : ℕ) (x y : List ℕ)
      → ((q : ℕ) → r q ≡ before ++ (ptr b num ref q ++ behind))
      → length before ≡ place
      → off out + pos ≡ length x
      → length (x ++ (r 0 ++ y)) < 2 ^ 32 - 1
      → for_each
          (link_address b blocks)
          (x ++ (r 0 ++ y))
          (record { block = n; out = out; pos = pos + place } ∷ [])
        ≡ ok (x ++ (r (off n) ++ y))
  unfolding for_each
  own-linked r before behind n out pos place x y split size at small =
      let l : Linkage = record { block = n; out = out; pos = pos + place } in
      let within : length (x ++ before) < 2 ^ 32 - 1 = omega (
        arith,
        length-append x (r 0 ++ y),
        length-append (r 0) y,
        ap length (split 0),
        length-append before (ptr b num ref 0 ++ behind),
        length-append x before,
      ) in
      rw
        (ap (λ t. link_address b blocks t l) (around_address 0)
          ∙ (link-over l (x ++ before) (behind ++ y) (omega (arith, length-append x before)) within
              ∙ ap ok (sym (around_address (off n)))))
        refl
    where
      around_address :
          (q : ℕ) → x ++ (r q ++ y) ≡ (x ++ before) ++ (ptr b num ref q ++ (behind ++ y))
      around_address q =
          ap (λ t. x ++ t)
            (ap (λ t. t ++ y) (split q)
              ∙ (append_assoc before (ptr b num ref q ++ behind) y
                  ∙ ap (λ t. before ++ t) (append_assoc (ptr b num ref q) behind y)))
          ∙ sym (append_assoc x before (ptr b num ref q ++ (behind ++ y)))

  -- The own link_address of an item.
  item-linked :
      (item : Item) (n out pos : ℕ) (x y : List ℕ)
      → off out + pos ≡ length x
      → length (x ++ (raw b num ref 0 item ++ y)) < 2 ^ 32 - 1
      → for_each
          (link_address b blocks)
          (x ++ (raw b num ref 0 item ++ y))
          (own_links b num ref n out pos item)
        ≡ ok (x ++ (raw b num ref (off n) item ++ y))
  unfolding for_each raw own_links own_block link_place vec_bytes
  item-linked nil n out pos x y at small = refl
  item-linked (boolean v) n out pos x y at small = refl
  item-linked (number val) n out pos x y at small = refl
  item-linked (vector vx vy vz) n out pos x y at small = refl
  item-linked (quaternion vx vy vz vw) n out pos x y at small = refl
  item-linked (idstring val) n out pos x y at small = refl
  item-linked (string val) n out pos x y at small =
      own-linked (λ q. raw b num ref q (string val)) (ptr b num ref 0) [] n out pos (pointer_size b)
        x y (λ q. ap (λ t. ptr b num ref 0 ++ t) (sym (append-nil (ptr b num ref q))))
        (length-le_bytes (pointer_size b) 0) at small
  item-linked (table meta items) n out pos x y at small =
      let m = ptr b num ref (meta_value b num ref meta) in
      let size = le_bytes 4 (length items % 2 ^ 32) in
      own-linked (λ q. raw b num ref q (table meta items)) (m ++ (size ++ size)) (ptr b num ref 0) n
        out pos (pointer_size b + 8) x y
        (λ q. sym (
          append_assoc m (size ++ size) (ptr b num ref q ++ ptr b num ref 0)
          ∙ ap (λ t. m ++ t) (append_assoc size size (ptr b num ref q ++ ptr b num ref 0))))
        (omega (
          arith,
          length-append m (size ++ size),
          length-append size size,
          length-le_bytes (pointer_size b) (meta_value b num ref meta),
          length-le_bytes 4 (length items % 2 ^ 32),
        ))
        at small

  pub length-raws :
      (items : List Item) (f : ℕ → ℕ) (n m : ℕ)
      → length (raws b num ref f n items) ≡ length (raws b num ref (λ _. 0) m items)
  unfolding raws
  length-raws [] f n m = refl
  length-raws (item ∷ items) f n m = omega (
    arith,
    length-append (raw b num ref (f n) item)
        (raws b num ref f (n + length (own_block b num ref item)) items),
    length-append (raw b num ref 0 item)
        (raws b num ref (λ _. 0) (m + length (own_block b num ref item)) items),
    length-raw (f n) item,
    length-raws items f (n + length (own_block b num ref item))
        (m + length (own_block b num ref item)),
  )

  pub items-linked :
      (items : List Item) (n out pos : ℕ) (x y : List ℕ)
      → off out + pos ≡ length x
      → length (x ++ (raws b num ref (λ _. 0) n items ++ y)) < 2 ^ 32 - 1
      → for_each
          (link_address b blocks)
          (x ++ (raws b num ref (λ _. 0) n items ++ y))
          (item_links b num ref n out pos items)
        ≡ ok (x ++ (raws b num ref off n items ++ y))
  unfolding for_each raws item_links
  items-linked [] n out pos x y at small = refl
  items-linked (item ∷ items) n out pos x y at small =
      let k = n + length (own_block b num ref item) in
      let r = raw b num ref 0 item in
      let q = raw b num ref (off n) item in
      let zs = raws b num ref (λ _. 0) k items in
      let qs = raws b num ref off k items in
      let shape : x ++ ((r ++ zs) ++ y) ≡ x ++ (r ++ (zs ++ y)) =
        ap (λ t. x ++ t) (append_assoc r zs y) in
      let own : for_each (link_address b blocks) (x ++ ((r ++ zs) ++ y))
            (own_links b num ref n out pos item)
          ≡ ok ((x ++ q) ++ (zs ++ y)) =
        ap (λ t. for_each (link_address b blocks) t (own_links b num ref n out pos item)) shape
        ∙ (item-linked item n out pos x (zs ++ y) at
              (subst (λ t. length t < 2 ^ 32 - 1) shape small)
            ∙ ap ok (sym (append_assoc x q (zs ++ y)))) in
      for_each-append (link_address b blocks) (x ++ ((r ++ zs) ++ y))
        (own_links b num ref n out pos item) (item_links b num ref k out (pos + length r) items) _
        own
      ∙ (items-linked items k out (pos + length r) (x ++ q) y
            (omega (arith, length-append x q, length-raw (off n) item))
            (omega (
              arith,
              length-append (x ++ q) (zs ++ y),
              length-append x q,
              length-raw (off n) item,
              ap length shape,
              length-append x (r ++ (zs ++ y)),
              length-append r (zs ++ y),
            ))
          ∙ ap ok (append_assoc x q (qs ++ y) ∙ ap (λ t. x ++ t) (sym (append_assoc q qs y))))
