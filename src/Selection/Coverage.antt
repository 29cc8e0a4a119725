-- ===== src/Selection/Coverage.antt =====
-- What the rounds of the loop of `next` owe, and pay, of the members of the groups.
use pingsix.Prelude.{
  ℕ, zero, suc, ◌+◌, ◌-◌, ◌*◌, ◌/◌, ◌<◌, ◌≡◌, ◌≢◌, ◌⊎◌, ◌∙◌, refl, ap, sym, Bool, true, false, ◌&&◌,
  Option, none, some, List, [], ◌∷◌, if◌then◌else◌, ltb, ◌==◌, nat_eq, is_nil, length, get_elem?,
  arith, inl, inr, All, Option-cases, Bool-cases,
}
use pingsix.Selection.Backends.{Backend, BackendSet, PriorityGroup}
use pingsix.Selection.Iterate.{
  group_draw_budget, bit, binary_search, Cursor, Round, continues, returned, unseen_from, cover,
  take_index, enter, draw_inner, draw_one, in_group, round, next_loop,
}
use pingsix.Selection.Halts.{IsInhabited, All-get, enter-seen, is_nil-set_bit, round-cases}
use pingsix.Selection.Bits.{
  length-set_bit, bit-set_bit, length-zeros, bit-zeros, binary_search-bound, unseen_from-found,
  unseen_from-passed, unseen_from-none, get_elem?-length, get_elem?-bound,
}

-- Whether a group has a member at an index.
abbrev pub is_member : ℕ → ℕ → List PriorityGroup → Bool
is_member g i groups = elim (get_elem? groups g) [
  | none ↦ false
  | some group ↦ ltb i (length group.backends)
]

-- How often a member is still to be returned.
abbrev pub owed : {Iter : Type 0} → ℕ → ℕ → List PriorityGroup → Cursor Iter → ℕ
owed g i groups c =
    if is_member g i groups
    then (if ltb c.group g then 1 else if c.group == g then (if bit i c.seen then 0 else 1) else 0)
    else 0

-- How often a round returns it.
abbrev pub paid : {Iter : Type 0} → ℕ → ℕ → Cursor Iter → Round → ℕ
paid g i d continues = 0
paid g i d (returned none) = 0
paid g i d (returned (some k)) = if d.group == g && k == i then 1 else 0

-- The words have a bit for each member, and the members before `next` are seen.
pub record Inv {Iter : Type 0} (groups : List PriorityGroup) (c : Cursor Iter) : Type 0 where
  pub wide : (i : ℕ) → is_member c.group i groups ≡ true → is_nil c.seen ≡ false → i < length c.seen
  pub past : (i : ℕ) → i < c.next → is_nil c.seen ≡ false → bit i c.seen ≡ true

Inv-same :
    {Iter : Type 0} {groups : List PriorityGroup} (c d : Cursor Iter)
    → d.group ≡ c.group
    → d.seen ≡ c.seen
    → d.next ≡ c.next
    → Inv groups c
    → Inv groups d
Inv-same c d p q r v = record {
  wide = λ i m n. ground (arith, v.wide i);
  past = λ i l n. ground (arith, v.past i);
}

subst_Inv :
    {Iter : Type 0} {groups : List PriorityGroup} {c d : Cursor Iter}
    → c ≡ d
    → Inv groups c
    → Inv groups d
subst_Inv p v = rw (sym p) v

nil-bit : (i : ℕ) (bs : List Bool) → is_nil bs ≡ true → bit i bs ≡ false
nil-bit i [] h = refl
nil-bit i (b ∷ bs) h = absurd (ground arith)

module _ {Iter : Type 0} (iter : BackendSet → Iter) (draw : Iter → Iter × Option Backend)
    (groups : List PriorityGroup) where
  enter-owed :
      (g i : ℕ) (G : PriorityGroup) (c : Cursor Iter)
      → owed g i groups (enter iter draw G c) ≡ owed g i groups c
  unfolding enter
  enter-owed g i G c =
      ground (arith, nil-bit i c.seen, bit-zeros (64 * ((length G.backends + 63) / 64)) i)

  enter-Inv :
      (G : PriorityGroup) (c : Cursor Iter)
      → get_elem? groups c.group ≡ some G
      → Inv groups c
      → Inv groups (enter iter draw G c)
  unfolding enter
  enter-Inv G c at v = record {
    wide = λ i m n. ground (arith, v.wide i, length-zeros (64 * ((length G.backends + 63) / 64)));
    past = λ i l n. ground (arith, v.past i);
  }

  take_index-owed :
      (g i : ℕ) (k : Option ℕ) (c d : Cursor Iter) (o : Round)
      → ((j : ℕ) → k ≡ some j → (j < length c.seen) × (is_member c.group j groups ≡ true))
      → take_index k c ≡ (d, o)
      → owed g i groups c ≡ paid g i d o + owed g i groups d
  unfolding take_index
  take_index-owed g i none c d o l h = ground arith
  take_index-owed g i (some k) c d o l h =
      let (room, member) = l k refl in ground (arith, bit-set_bit k i c.seen room)

  take_index-Inv :
      (k : Option ℕ) (c d : Cursor Iter) (o : Round)
      → ((j : ℕ) → k ≡ some j → (j < length c.seen) × (is_member c.group j groups ≡ true))
      → take_index k c ≡ (d, o)
      → Inv groups c
      → Inv groups d
  unfolding take_index
  take_index-Inv none c d o l h v = ground arith
  take_index-Inv (some k) c d o l h v = record {
    wide = λ i m n. ground (arith, v.wide i, length-set_bit k c.seen, is_nil-set_bit k c.seen);
    past = λ i p n.
        ground (arith, v.past i, bit-set_bit k i c.seen (l k refl).0, is_nil-set_bit k c.seen);
  }

  -- An index that the search finds has a bit.
  found_wide :
      (G : PriorityGroup) (c : Cursor Iter) (b : Backend) (j : ℕ)
      → get_elem? groups c.group ≡ some G
      → is_nil c.seen ≡ false
      → Inv groups c
      → binary_search b G.backends ≡ some j
      → (j < length c.seen) × (is_member c.group j groups ≡ true)
  found_wide G c b j at s v h =
      let member : is_member c.group j groups ≡ true =
        ground (arith, binary_search-bound b G.backends j h) in
      (v.wide j member s, member)

  draw_one-owed :
      (g i : ℕ) (G : PriorityGroup) (c d : Cursor Iter) (o : Round)
      → get_elem? groups c.group ≡ some G
      → is_nil c.seen ≡ false
      → Inv groups c
      → draw_one iter draw G c ≡ (d, o)
      → (owed g i groups c ≡ paid g i d o + owed g i groups d) × Inv groups d
  unfolding draw_one
  draw_one-owed g i G c d o at s v h = elim (Option-cases (draw_inner iter draw c.inner).1) [
    | inl e ↦ (ground arith, Inv-same c d (ground arith) (ground arith) (ground arith) v)
    | inr (b, e) ↦
        let c' : Cursor Iter = record c {
          inner = (draw_inner iter draw c.inner).0;
          drawn = suc c.drawn;
        } in
        let taken : take_index (binary_search b G.backends) c' ≡ (d, o) = ground arith in
        let room =
          λ (j : ℕ) (p : binary_search b G.backends ≡ some j). found_wide G c b j at s v p in
        (
          take_index-owed g i (binary_search b G.backends) c' d o room taken,
          take_index-Inv (binary_search b G.backends) c' d o room taken
              (Inv-same c c' refl refl refl v),
        )
  ]

  cover-owed :
      (g i : ℕ) (G : PriorityGroup) (c d : Cursor Iter) (o : Round)
      → get_elem? groups c.group ≡ some G
      → is_nil c.seen ≡ false
      → Inv groups c
      → cover G c ≡ (d, o)
      → owed g i groups c ≡ paid g i d o + owed g i groups d
  unfolding cover
  cover-owed g i G c d o at s v h =
      let n = length G.backends - c.next in
      elim (Option-cases (unseen_from n c.next c.seen).1) [
        | inl e ↦ ground (arith, v.past i, unseen_from-none n c.next c.seen i e)
        | inr (k, e) ↦
            ground (arith, unseen_from-found n c.next c.seen k e, v.wide k, bit-set_bit k i c.seen)
      ]

  cover-Inv :
      (G : PriorityGroup) (c d : Cursor Iter) (o : Round)
      → get_elem? groups c.group ≡ some G
      → is_nil c.seen ≡ false
      → Inv groups c
      → cover G c ≡ (d, o)
      → Inv groups d
  unfolding cover
  cover-Inv G c d o at s v h =
      let n = length G.backends - c.next in
      elim (Option-cases (unseen_from n c.next c.seen).1) [
        | inl e ↦ record {
          wide = λ i m nn. absurd (ground arith);
          past = λ i p nn. absurd (ground arith);
        }
        | inr (k, e) ↦
            let (at_k, low, high, clear) = unseen_from-found n c.next c.seen k e in
            record {
              wide = λ i m nn. ground (arith, v.wide i, length-set_bit k c.seen);
              past = λ i p nn. ground (
                arith,
                v.past i,
                v.wide k,
                bit-set_bit k i c.seen,
                unseen_from-passed n c.next c.seen i,
              );
            }
      ]

  in_group-owed :
      (g i : ℕ) (G : PriorityGroup) (c d : Cursor Iter) (o : Round)
      → get_elem? groups c.group ≡ some G
      → IsInhabited G
      → Inv groups c
      → in_group iter draw G c ≡ (d, o)
      → (owed g i groups c ≡ paid g i d o + owed g i groups d) × Inv groups d
  unfolding in_group
  in_group-owed g i G c d o at in_G v h =
      let e = enter iter draw G c in
      let (s, same, _) = enter-seen iter draw G c in_G in
      let at_e : get_elem? groups e.group ≡ some G = ground arith in
      let v' = enter-Inv G c at v in
      elim (Bool-cases (ltb e.drawn (group_draw_budget (length G.backends)))) [
        | inl more ↦
            let drawn_one : draw_one iter draw G e ≡ (d, o) = ground arith in
            let (pays, kept) = draw_one-owed g i G e d o at_e s v' drawn_one in
            (ground (arith, enter-owed g i G c), kept)
        | inr spent ↦
            let covered : cover G e ≡ (d, o) = ground arith in
            (
              ground (arith, enter-owed g i G c, cover-owed g i G e d o at_e s v' covered),
              cover-Inv G e d o at_e s v' covered,
            )
      ]

  take_index-more : (k : Option ℕ) (c : Cursor Iter) → (take_index k c).1 ≢ returned none
  unfolding take_index
  take_index-more none c h = absurd (ground arith)
  take_index-more (some k) c h = absurd (ground arith)

  draw_one-more : (G : PriorityGroup) (c : Cursor Iter) → (draw_one iter draw G c).1 ≢ returned none
  unfolding draw_one
  draw_one-more G c h = elim (Option-cases (draw_inner iter draw c.inner).1) [
    | inl e ↦ absurd (ground arith)
    | inr (b, e) ↦
        let c' : Cursor Iter = record c {
          inner = (draw_inner iter draw c.inner).0;
          drawn = suc c.drawn;
        } in
        absurd (ground (arith, take_index-more (binary_search b G.backends) c'))
  ]

  cover-more : (G : PriorityGroup) (c : Cursor Iter) → (cover G c).1 ≢ returned none
  unfolding cover
  cover-more G c h = absurd (ground arith)

  in_group-more : (G : PriorityGroup) (c : Cursor Iter) → (in_group iter draw G c).1 ≢ returned none
  unfolding in_group
  in_group-more G c h =
      let e = enter iter draw G c in absurd (ground (arith, draw_one-more G e, cover-more G e))

  round-owed :
      (g i : ℕ) (c d : Cursor Iter) (o : Round)
      → All IsInhabited groups
      → Inv groups c
      → round iter draw groups c ≡ (d, o)
      → (owed g i groups c ≡ paid g i d o + owed g i groups d)
        × Inv groups d
        × ((o ≢ returned none) ⊎ (owed g i groups c ≡ 0))
  unfolding round
  round-owed g i c d o a v h = elim (Option-cases (get_elem? groups c.group)) [
    | inl e ↦ (
      ground arith,
      Inv-same c d (ground arith) (ground arith) (ground arith) v,
      inr (elim (Option-cases (get_elem? groups g)) [
        | inl none_there ↦ ground arith
        | inr (G, there) ↦
            ground (arith, get_elem?-length c.group groups e, get_elem?-bound g groups G there)
      ]),
    )
    | inr (G, e) ↦
        let member = All-get c.group groups G a e in
        let here : in_group iter draw G c ≡ (d, o) = ground arith in
        let (pays, kept) = in_group-owed g i G c d o e member v here in
        (pays, kept, inl (λ p. in_group-more G c (ap (λ r. r.1) here ∙ p)))
  ]

  pub next_loop-owed :
      (fuel g i : ℕ) (c d : Cursor Iter) (r : Option ℕ)
      → All IsInhabited groups
      → Inv groups c
      → next_loop iter draw fuel groups c ≡ some (d, r)
      → (owed g i groups c ≡ paid g i d (returned r) + owed g i groups d)
        × Inv groups d
        × ((r ≢ none) ⊎ (owed g i groups c ≡ 0))
  unfolding next_loop
  next_loop-owed zero g i c d r a v h = absurd (ground arith)
  next_loop-owed (suc fuel) g i c d r a v h = elim (round-cases iter draw groups c) [
    | inl e ↦
        let m = (round iter draw groups c).0 in
        let (pays, kept, _) = round-owed g i c m continues a v e in
        let (later, last, done) = next_loop-owed fuel g i m d r a kept (ground arith) in
        (ground arith, last, ground arith)
    | inr (o, e) ↦
        let m = (round iter draw groups c).0 in
        let (pays, kept, done) = round-owed g i c m (returned o) a v e in
        let found : (m ≡ d) × (o ≡ r) = (ground arith, ground arith) in
        (ground (arith, found.0, found.1), subst_Inv found.0 kept, ground (arith, found.1))
  ]
