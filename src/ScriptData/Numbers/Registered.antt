-- ===== src/ScriptData/Numbers/Registered.antt =====
-- The walk of `Register` in src/scriptdata/ScriptData.cpp over the items that a value leads to.
use raid_super_blt.Base.{
  ℕ, suc, ◌<◌, ◌≡◌, refl, ◌↔◌, inl, inr, Bool, true, false, [], ◌∷◌, length, get_elem?,
  Option-cases, arith,
}
use raid_super_blt.Outcome.{ok}
use raid_super_blt.ScriptData.{Heap, WriteInfo, blank, find_item, register}
use raid_super_blt.ScriptData.Numbers.Reach.{Reach, here, step, Points-All, IsClosed}
use raid_super_blt.ScriptData.Numbers.Numbering.{IsNumbered, IsTyped, has}
use raid_super_blt.ScriptData.Numbers.Walks.{IsWalk, Visits, register-Visits, missing_bound}

module _ (heap : Heap) (root : ℕ) (use_32bit : Bool) (closed : IsClosed heap) where
  blank-IsWalk : (IsWalk heap root use_32bit closed) (blank use_32bit)
  unfolding blank find_item has
  blank-IsWalk = record {
    numbered = λ id a i. (λ e. cc, λ e. cc);
    typed = λ id a i e. absurd (cc);
    thawed = refl;
    unapplied = refl;
    width = refl;
    reached = λ a h. elim (Option-cases (get_elem? heap a)) [
      | inl e ↦ absurd (cc (rw (has, e) at h))
      | inr (item, e) ↦ absurd (cc (rw (has, e) at h))
    ];
  }

  pub has-blank : (a : ℕ) → has heap (blank use_32bit) a ≡ false
  unfolding blank find_item has
  has-blank a = elim (Option-cases (get_elem? heap a)) [
    | inl e ↦ rw (has, e) refl
    | inr (item, e) ↦ rw (has, e) refl
  ]

  complete :
      (next : WriteInfo)
      → Visits heap root use_32bit closed (blank use_32bit) (root ∷ []) next
      → {a : ℕ} → Reach heap root a
      → has heap next a ≡ true
  complete next v here = v.covers.0
  complete next v (step {a} r item valid c p) =
      Points-All (λ t. has heap next t ≡ true) item c p
        (v.followed a item valid (complete next v r) (has-blank a))

  pub register_all :
      root < length heap
      → (next : WriteInfo) × (register (suc (length heap)) heap (blank use_32bit) root ≡ ok next)
        × (Visits heap root use_32bit closed) (blank use_32bit) (root ∷ []) next
  register_all h =
      (register-Visits heap root use_32bit closed) (suc (length heap)) (blank use_32bit) root
        blank-IsWalk here h
        (omega (arith, missing_bound (has heap (blank use_32bit)) (length heap)))

  pub Visits-Reach :
      (next : WriteInfo)
      → Visits heap root use_32bit closed (blank use_32bit) (root ∷ []) next
      → (a : ℕ) → (has heap next a ≡ true) ↔ Reach heap root a
  Visits-Reach next v a = (v.walk.reached a, complete next v)

-- `Register` ends, on fuel for one call more than there are items, without an exception, when every
-- pointer leads to an item. The items that then have a number are those that pointers lead to from
-- the given one, however they lead in circles, and the numbers of the items of a type are their
-- places in the list of that type, so that no item stands there twice, or in the list of another
-- type.
pub register-Reach :
    (heap : Heap) (root : ℕ) (use_32bit : Bool)
    → IsClosed heap
    → root < length heap
    → (info : WriteInfo) × (register (suc (length heap)) heap (blank use_32bit) root ≡ ok info)
      × ((a : ℕ) → (has heap info a ≡ true) ↔ Reach heap root a)
      × IsNumbered info
      × IsTyped heap info
register-Reach heap root use_32bit closed h =
    let (info, e, v) = register_all heap root use_32bit closed h in
    (info, e, Visits-Reach heap root use_32bit closed info v, v.walk.numbered, v.walk.typed)
