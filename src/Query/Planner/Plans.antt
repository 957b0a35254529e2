-- ===== src/Query/Planner/Plans.antt =====
-- Which plan a recall gets, and what becomes of its filters.
use grasp.Prelude.{
  ℕ, ◌≡◌, refl, ap, ◌⊎◌, inl, inr, Bool, true, false, not, ◌&&◌, none, List, [], ◌∷◌, arith, Memᴰ,
  ◌==◌, Bool-cases, length, retain, any, find, Memᴰ-retain,
}
use mathlib.Core.List.Memᴰ
use grasp.Query.Result.{ok}
use grasp.Query.Ast.{Field, Operator, Value, text_value, Filter, RecallStatement}
use grasp.Query.Planner.{
  QueryPlan, vector_search, tag_scan, temporal_scan, similar, on_time, is_tag, texts, plan_scan,
  plan_recall,
}

module _ {F D : Type 0} where
  -- The filters that a plan still applies.
  abbrev pub filters_of : QueryPlan F D → List (Filter F D)
  filters_of (vector_search query k filters) = filters
  filters_of (tag_scan tags filters limit) = filters
  filters_of (temporal_scan start end filters) = filters
  filters_of _ = []

  -- The tags that a plan looks up.
  abbrev pub tags_of : QueryPlan F D → List (List ℕ)
  tags_of (tag_scan tags filters limit) = tags
  tags_of _ = []

  plan_recall-scan :
      (r : RecallStatement F D)
      → r.near ≡ none
      → find similar r.filters ≡ none
      → plan_recall r ≡ ok (plan_scan r)
  unfolding plan_recall
  plan_recall-scan r no_vector no_text = rw (no_vector, no_text, plan_recall) refl

  -- A text is among the tags; other values are no tags.
  abbrev pub Covered : Value F D → List (List ℕ) → Type 0
  Covered (text_value t) tags = Memᴰ t tags
  Covered _ tags = Unit

  Covered-cons :
      (v : Value F D) (t : List ℕ) (tags : List (List ℕ)) → Covered v tags → Covered v (t ∷ tags)
  Covered-cons (text_value s) t tags c = Memᴰ.tail c
  Covered-cons (Value.number_value x) t tags c = tt
  Covered-cons (Value.integer_value x) t tags c = tt
  Covered-cons (Value.bool_value x) t tags c = tt
  Covered-cons (Value.uuid_value x) t tags c = tt
  Covered-cons (Value.vector_value x) t tags c = tt
  Covered-cons (Value.memory_type_value x) t tags c = tt
  Covered-cons (Value.edge_type_value x) t tags c = tt

  -- The texts of a list of filters with one filter more.
  texts_cons :
      (g : Filter F D) (fs : List (Filter F D))
      → ((v : Value F D) → Covered v (texts fs) → Covered v (texts (g ∷ fs)))
        × Covered g.value (texts (g ∷ fs))
  texts_cons g fs = go g.field g.op g.value
    where
      go :
          (field : Field) (op : Operator) (v : Value F D)
          → ((w : Value F D)
              → Covered w (texts fs)
              → Covered w (texts (record { field = field; op = op; value = v } ∷ fs)))
            × Covered v (texts (record { field = field; op = op; value = v } ∷ fs))
      go field op (text_value t) = (λ w c. Covered-cons w t (texts fs) c, Memᴰ.head refl)
      go field op (Value.number_value x) = (λ w c. c, tt)
      go field op (Value.integer_value x) = (λ w c. c, tt)
      go field op (Value.bool_value x) = (λ w c. c, tt)
      go field op (Value.uuid_value x) = (λ w c. c, tt)
      go field op (Value.vector_value x) = (λ w c. c, tt)
      go field op (Value.memory_type_value x) = (λ w c. c, tt)
      go field op (Value.edge_type_value x) = (λ w c. c, tt)

  Covered-texts : (f : Filter F D) (fs : List (Filter F D)) → Memᴰ f fs → Covered f.value (texts fs)
  Covered-texts f [] m = absurd (Memᴰ.not-nil m)
  Covered-texts f (g ∷ fs) m = elim (Memᴰ.cases_cons m) [
    | inl same ↦ rw same (texts_cons g fs).1
    | inr later ↦ (texts_cons g fs).0 f.value (Covered-texts f fs later)
  ]

  none-any :
      (p : Filter F D → Bool) (f : Filter F D) (fs : List (Filter F D))
      → any p fs ≡ false
      → Memᴰ f fs
      → p f ≡ false
  none-any p f [] h m = absurd (Memᴰ.not-nil m)
  none-any p f (g ∷ fs) h m = elim (Memᴰ.cases_cons m) [
    | inl same ↦ rw same (ground arith)
    | inr later ↦ none-any p f fs (ground arith) later
  ]

  plan_scan-filters :
      (r : RecallStatement F D) (f : Filter F D)
      → Memᴰ f r.filters
      → on_time f ≡ false
      → Memᴰ f (filters_of (plan_scan r))
        ⊎ ((is_tag f.field ≡ true) × Covered f.value (tags_of (plan_scan r)))
  unfolding plan_scan
  plan_scan-filters r f m untimed =
      let tagged = retain (λ g. is_tag g.field) r.filters in
      let timed = retain on_time r.filters in
      let only_tags = not (length tagged == 0) && not (any (λ g. not (is_tag g.field)) r.filters) in
      elim (Bool-cases only_tags) [
        | inl only ↦
            let tag : is_tag f.field ≡ true =
              ground (arith, none-any (λ g. not (is_tag g.field)) f r.filters (ground arith) m) in
            rw only (
              inr (
                tag,
                Covered-texts f tagged ((Memᴰ-retain (λ g. is_tag g.field) f r.filters).1 (m, tag)),
              ))
        | inr mixed ↦ elim (Bool-cases (not (length timed == 0))) [
          | inl some_time ↦
              rw (mixed, some_time)
                (inl ((Memᴰ-retain (λ g. not (on_time g)) f r.filters).1 (m, ap not untimed)))
          | inr no_time ↦ rw (mixed, no_time) (inl m)
        ]
      ]

  -- A recall without a vector and without a similarity filter is planned as a scan, and of its
  -- filters only time ranges are taken out: every other filter is applied by the plan, or it is a
  -- filter on tags whose value, if it is a text, is among the tags that the plan looks up.
  pub plan_recall-filters :
      (r : RecallStatement F D) (f : Filter F D)
      → r.near ≡ none
      → find similar r.filters ≡ none
      → Memᴰ f r.filters
      → on_time f ≡ false
      → (plan_recall r ≡ ok (plan_scan r))
        × (Memᴰ f (filters_of (plan_scan r))
            ⊎ ((is_tag f.field ≡ true) × Covered f.value (tags_of (plan_scan r))))
  plan_recall-filters r f no_vector no_text m untimed =
      (plan_recall-scan r no_vector no_text, plan_scan-filters r f m untimed)
