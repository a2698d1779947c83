-- ===== src/Histogram/Percentile.antt =====
-- engines/histogram.rs: which bucket a percentile is read off.
use mathlib.Core.Option
use mathlib.Core.Option.{some_inj}
use mathlib.Core.List.{reverse, reverse-cons, append_assoc}
use spark_dashboard.Prelude.{
  ◌⊎◌, ◌↔◌, Bool, ap, ◌||◌, ◌≡◌, refl, sym, ◌∙◌, inl, inr, true, false, not, Option, none, some, [],
  ◌∷◌, ◌++◌, arith, All, find, if◌then◌else◌, Bool-cases,
}
use spark_dashboard.Float.{F64}
use spark_dashboard.Prometheus.{Buckets}
use spark_dashboard.Histogram.{
  total, in_unit, interpolate, lower_of, select, percentile_with, percentile,
}

module _ {F : Type 0} (f : F64 F) where
  -- The bound and the count that a bucket starts at: those of the bucket before it, and else 0. The
  -- buckets before are listed the last one first.
  abbrev pub bound_before : Buckets F → F
  bound_before [] = f.zero
  bound_before ((le, cum) ∷ before) = le

  abbrev pub count_before : Buckets F → F
  count_before [] = f.zero
  count_before ((le, cum) ∷ before) = cum

  -- `v` is the last bound that is finite.
  abbrev pub IsLastFinite : Buckets F → F → Type 0
  IsLastFinite [] v = ⊥
  IsLastFinite ((le, cum) ∷ before) v =
      ((f.is_infinite le ≡ false) × (v ≡ le)) ⊎ ((f.is_infinite le ≡ true) × IsLastFinite before v)

  -- The bucket has no count of its own, or no width.
  abbrev pub is_flat : Buckets F → F → F → Bool
  is_flat before le cum =
      f.le (f.sub cum (count_before before)) f.zero || f.le (f.sub le (bound_before before)) f.zero

  -- The point that lies as far between the two bounds of a bucket as the target lies between its two
  -- counts.
  abbrev pub between : F → Buckets F → F → F → F
  between target before le cum = f.add (bound_before before) (
      f.mul (f.div (f.sub target (count_before before)) (f.sub cum (count_before before)))
        (f.sub le (bound_before before)))

  -- What a bucket gives: in an infinite one the last finite bound before it, in a flat one its own
  -- bound, and in another the point between its bounds.
  abbrev pub IsPoint : F → Buckets F → F → F → F → Type 0
  IsPoint target before le cum v =
      ((f.is_infinite le ≡ true) × IsLastFinite before v)
      ⊎ ((f.is_infinite le ≡ false) × (is_flat before le cum ≡ true) × (v ≡ le))
      ⊎ ((f.is_infinite le ≡ false)
          × (is_flat before le cum ≡ false)
          × (v
              ≡ f.add (bound_before before) (
                  f.mul
                    (f.div (f.sub target (count_before before)) (f.sub cum (count_before before)))
                    (f.sub le (bound_before before)))))

  -- `v` is read off the first bucket whose count reaches `target`. The buckets before the one that is
  -- chosen are listed in reverse.
  pub record IsReadOff (target : F) (buckets : Buckets F) (v : F) : Type 0 where
    pub before : Buckets F
    pub le : F
    pub cum : F
    pub after : Buckets F
    pub split : buckets ≡ reverse before ++ (le, cum) ∷ after
    pub earlier : All (λ x. f.le target x.1 ≡ false) before
    pub reached : f.le target cum ≡ true
    pub value : IsPoint target before le cum v

  find-IsLastFinite :
      (before : Buckets F) (v : F)
      → (Option.map (λ x. x.0) (find (λ x. not (f.is_infinite x.0)) before) ≡ some v)
        ↔ IsLastFinite before v
  find-IsLastFinite [] v = ((λ h. cc), (λ h. elim h [ ]))
  find-IsLastFinite ((le, cum) ∷ before) v = elim (Bool-cases (f.is_infinite le)) [
    | inl infinite ↦ rw infinite (
      (λ h. inr (refl, (find-IsLastFinite before v).0 h)),
      (λ h. elim h [
        | inl (not_so, same) ↦ cc
        | inr (is, last) ↦ (find-IsLastFinite before v).1 last
      ]),
    )
    | inr finite ↦ rw finite (
      (λ h. inl (refl, sym (some_inj.0 h))),
      (λ h. elim h [ inl (is, same) ↦ ap some (sym same) | inr (not_so, last) ↦ cc ]),
    )
  ]

  flat_or-IsPoint :
      (flat : Bool) (bound point v : F)
      → (some (if flat then bound else point) ≡ some v)
        ↔ (((flat ≡ true) × (v ≡ bound)) ⊎ ((flat ≡ false) × (v ≡ point)))
  flat_or-IsPoint true bound point v = (
    (λ h. inl (refl, sym (some_inj.0 h))),
    (λ h. elim h [ inl (is, same) ↦ ap some (sym same) | inr (not_so, same) ↦ cc ]),
  )
  flat_or-IsPoint false bound point v = (
    (λ h. inr (refl, sym (some_inj.0 h))),
    (λ h. elim h [ inl (is, same) ↦ cc | inr (not_so, same) ↦ ap some (sym same) ]),
  )

  interpolate-IsPoint :
      (target : F) (before : Buckets F) (le cum v : F)
      → (some (interpolate f target (lower_of f before) (le, cum)) ≡ some v) ↔ (
          ((is_flat before le cum ≡ true) × (v ≡ le))
          ⊎ ((is_flat before le cum ≡ false) × (v ≡ between target before le cum)))
  unfolding interpolate
  interpolate-IsPoint target [] le cum v = flat_or-IsPoint (is_flat [] le cum) le _ v
  interpolate-IsPoint target (x ∷ before) le cum v =
      flat_or-IsPoint (is_flat (x ∷ before) le cum) le _ v

  select-IsPoint :
      (target : F) (before after : Buckets F) (le cum v : F)
      → f.le target cum ≡ true
      → (select f target before ((le, cum) ∷ after) ≡ some v) ↔ IsPoint target before le cum v
  unfolding select
  select-IsPoint target before after le cum v reached = elim (Bool-cases (f.is_infinite le)) [
    | inl infinite ↦
        rw (select, reached)
          (rw infinite (
            (λ h. inl (refl, (find-IsLastFinite before v).0 h)),
            (λ h. elim h [
              | inl (is, last) ↦ (find-IsLastFinite before v).1 last
              | inr (inl (not_so, a, b)) ↦ cc
              | inr (inr (not_so, a, b)) ↦ cc
            ]),
          ))
    | inr finite ↦
        let point = interpolate-IsPoint target before le cum v in
        rw (select, reached)
          (rw finite (
            (λ h. elim (point.0 h) [
              | inl flat ↦ inr (inl (refl, flat.0, flat.1))
              | inr wide ↦ inr (inr (refl, wide.0, wide.1))
            ]),
            (λ h. elim h [
              | inl (not_so, rest) ↦ cc
              | inr (inl (is, a, b)) ↦ point.1 (inl (a, b))
              | inr (inr (is, a, b)) ↦ point.1 (inr (a, b))
            ]),
          ))
  ]

  select-reversed :
      (target : F) (before rest : Buckets F)
      → All (λ x. f.le target x.1 ≡ false) before
      → select f target [] (reverse before ++ rest) ≡ select f target before rest
  unfolding select
  select-reversed target [] rest h = refl
  select-reversed target ((le, cum) ∷ before) rest h =
      ap (select f target [])
        (rw reverse-cons (append_assoc (reverse before) ((le, cum) ∷ []) rest))
      ∙ (select-reversed target before ((le, cum) ∷ rest) h.1 ∙ rw h.0 refl)

  select-IsReadOff :
      (target : F) (before buckets : Buckets F) (v : F)
      → All (λ x. f.le target x.1 ≡ false) before
      → select f target before buckets ≡ some v
      → (r : Buckets F) → r ≡ reverse before ++ buckets
      → IsReadOff target r v
  unfolding select
  select-IsReadOff target before [] v h found r e = cc
  select-IsReadOff target before ((le, cum) ∷ buckets) v h found r e =
      elim (Bool-cases (f.le target cum)) [
        | inl here ↦ record {
          before = before;
          le = le;
          cum = cum;
          after = buckets;
          split = e;
          earlier = h;
          reached = here;
          value = (select-IsPoint target before buckets le cum v here).0 found;
        }
        | inr later ↦
            select-IsReadOff target ((le, cum) ∷ before) buckets v (later, h) (ground arith) r
              (e ∙ sym (rw reverse-cons (append_assoc (reverse before) ((le, cum) ∷ []) buckets)))
      ]

  IsReadOff-select :
      (target : F) (buckets : Buckets F) (v : F)
      → IsReadOff target buckets v
      → select f target [] buckets ≡ some v
  IsReadOff-select target buckets v r =
      ap (select f target []) r.split
      ∙ (select-reversed target r.before _ r.earlier
          ∙ (select-IsPoint target r.before r.after r.le r.cum v r.reached).1 r.value)

  -- The count that the histogram ends with, for a quantile between 0 and 1, and more than 0.
  abbrev pub IsCounted : Option F → F → F → Type 0
  IsCounted count q t = (count ≡ some t) × (in_unit f q ≡ true) × (f.le t f.zero ≡ false)

  percentile_with-IsReadOff :
      (buckets : Buckets F) (q : F) (count : Option F) (v : F)
      → (percentile_with f buckets q count ≡ some v)
        ↔ ((t : F) × IsCounted count q t × IsReadOff (f.mul t q) buckets v)
  unfolding percentile_with
  percentile_with-IsReadOff buckets q none v = ((λ h. cc), (λ (t, h, rest). cc))
  percentile_with-IsReadOff buckets q (some t) v = (
    (λ h. (
      t,
      (refl, ground arith, ground arith),
      select-IsReadOff (f.mul t q) [] buckets v tt (ground arith) buckets refl,
    )),
    (λ (u, (same, unit, positive), r).
        let at : select f (f.mul u q) [] buckets ≡ some v =
          IsReadOff-select (f.mul u q) buckets v r in
        ground arith),
  )

  -- A percentile exists exactly for a quantile between 0 and 1 and a last count above 0, where a bucket
  -- reaches that part of the last count, and is read off the first that does: in a bucket without a
  -- count or a width of its own it is the bucket's bound, in an infinite one the last finite bound
  -- before it (and there is none without one), and in any other the point that lies as far between its
  -- bounds as that part lies between its counts.
  pub percentile-IsReadOff :
      (buckets : Buckets F) (q v : F)
      → (percentile f buckets q ≡ some v)
        ↔ ((t : F) × IsCounted (total buckets) q t × IsReadOff (f.mul t q) buckets v)
  unfolding percentile
  percentile-IsReadOff buckets q v = percentile_with-IsReadOff buckets q (total buckets) v
