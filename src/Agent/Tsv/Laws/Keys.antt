-- ===== src/Agent/Tsv/Laws/Keys.antt =====
-- The keys of the devices and samples that the parsers collect, and of the GPUs of a merge.
use lightai_platform.Prelude.{
  String, ◌≡◌, refl, sym, subst, ap, ◌∙◌, ◌||◌, not, Bool, true, false, List, [], ◌∷◌, ◌++◌, ◌==◌,
  map, arith, Bool-cases, inl, inr, any, nat_eq, length,
}
use lightai_platform.Prelude.Text.{one_of, all_distinct, trim}
use lightai_platform.Prelude.Text.Laws.{one_of-append, all_distinct-snoc}
use lightai_platform.Agent.Tsv.Cells.{parsed, Reading, TsvResult, column, rows_of}
use lightai_platform.Agent.Tsv.Number.{Floats}
use lightai_platform.Agent.Tsv.Discovery.{DiscoveryDevice, device_row, device_of, parse_discovery}
use lightai_platform.Agent.Tsv.Metrics.{MetricSample, metric_row, sample_of, parse_metrics}
use lightai_platform.Agent.Tsv.Laws.{result_keeps}

module _ {Item : Type 0} (key : Item → String) where
  -- The keys are not empty, are told apart, and have been seen.
  abbrev pub Keyed : List Item → List String → Type 0
  Keyed items seen =
      (any (λ i. key i == "") items ≡ false)
      × (all_distinct (map key items) ≡ true)
      × ((k : String) → one_of (map key items) k ≡ true → one_of seen k ≡ true)

  nothing-Keyed : Keyed [] []
  unfolding all_distinct one_of any
  nothing-Keyed = (refl, refl, λ k h. h)

  seen-Keyed :
      (items : List Item) (seen : List String) (k : String)
      → Keyed items seen
      → Keyed items (k ∷ seen)
  unfolding one_of
  seen-Keyed items seen k (full, apart, known) = (full, apart, λ s h. ground (arith, known s h))

  any-append :
      (items : List Item) (i : Item)
      → any (λ i. key i == "") (items ++ i ∷ []) ≡ any (λ i. key i == "") items || key i == ""
  unfolding any
  any-append [] i = ground arith
  any-append (x ∷ xs) i = ground (arith, any-append xs i)

  keys-append :
      (items : List Item) (i : Item) → map key (items ++ i ∷ []) ≡ map key items ++ key i ∷ []
  keys-append [] i = refl
  keys-append (x ∷ xs) i = ap (λ ks. key x ∷ ks) (keys-append xs i)

  known_snoc :
      (items : List Item) (seen : List String) (i : Item) (s : String)
      → (one_of (map key items) s ≡ true → one_of seen s ≡ true)
      → one_of (map key (items ++ i ∷ [])) s ≡ true
      → one_of (key i ∷ seen) s ≡ true
  unfolding one_of
  known_snoc items seen i s known h =
      let split =
        ap (λ ks. one_of ks s) (keys-append items i)
        ∙ one_of-append (map key items) (key i ∷ []) s in
      ground (arith, known, h, split)

  fresh :
      (ks seen : List String) (s : String)
      → ((k : String) → one_of ks k ≡ true → one_of seen k ≡ true)
      → one_of seen s ≡ false
      → one_of ks s ≡ false
  fresh ks seen s known h = ground (arith, known s, h)

  item-Keyed :
      (items : List Item) (seen : List String) (i : Item)
      → Keyed items seen
      → (key i == "") ≡ false
      → one_of seen (key i) ≡ false
      → Keyed (items ++ i ∷ []) (key i ∷ seen)
  item-Keyed items seen i (full, apart, known) filled new = (
    ground (arith, any-append items i, full, filled),
    subst (λ ks. all_distinct ks ≡ true) (sym (keys-append items i))
        (all_distinct-snoc (map key items) (key i) apart
          (fresh (map key items) seen (key i) known new)),
    λ s h. known_snoc items seen i s (known s) h,
  )

device-Keyed :
    (cols : List String) (r : Reading DiscoveryDevice)
    → Keyed (λ d. d.device_key) r.items r.seen_keys
    → Keyed (λ d. d.device_key) (device_row cols r).items (device_row cols r).seen_keys
unfolding device_row
device-Keyed cols r p =
    let key = trim (column 2 cols) in
    let key_of : DiscoveryDevice → String = λ d. d.device_key in
    let skipped : Bool =
      not (nat_eq (length cols) 10)
      || not (column 1 cols == "1")
      || key == ""
      || one_of r.seen_keys key in
    elim (Bool-cases skipped) [
      | inl e ↦
          let same : device_row cols r ≡ r = ground arith in
          subst {A = Reading DiscoveryDevice} (λ s. Keyed key_of s.items s.seen_keys) (sym same) p
      | inr e ↦
          let row = device_of key cols in
          let pushed : device_row cols r
              ≡ record r { items = r.items ++ row ∷ []; seen_keys = key ∷ r.seen_keys } =
            ground arith in
          subst {A = Reading DiscoveryDevice} (λ s. Keyed key_of s.items s.seen_keys) (sym pushed)
            (item-Keyed key_of r.items r.seen_keys row p (ground arith) (ground arith))
    ]

sample-Keyed :
    (fl : Floats) (cols : List String) (r : Reading (MetricSample fl.F64))
    → Keyed (λ m. m.device_key) r.items r.seen_keys
    → Keyed (λ m. m.device_key) (metric_row fl cols r).items (metric_row fl cols r).seen_keys
unfolding metric_row
sample-Keyed fl cols r p =
    let key = trim (column 2 cols) in
    let health = trim (column 10 cols) in
    let key_of : MetricSample fl.F64 → String = λ m. m.device_key in
    let skipped : Bool =
      not (nat_eq (length cols) 12)
      || not (column 1 cols == "1")
      || key == ""
      || one_of r.seen_keys key in
    elim (Bool-cases skipped) [
      | inl e ↦
          let same : metric_row fl cols r ≡ r = ground arith in
          subst {A = Reading (MetricSample fl.F64)} (λ s. Keyed key_of s.items s.seen_keys)
            (sym same) p
      | inr e ↦ elim (Bool-cases (health == "")) [
        | inl k ↦
            let marked : metric_row fl cols r ≡ record r { seen_keys = key ∷ r.seen_keys } =
              ground arith in
            subst {A = Reading (MetricSample fl.F64)} (λ s. Keyed key_of s.items s.seen_keys)
              (sym marked) (seen-Keyed key_of r.items r.seen_keys key p)
        | inr k ↦
            let row = sample_of fl key health cols in
            let pushed : metric_row fl cols r
                ≡ record r { items = r.items ++ row ∷ []; seen_keys = key ∷ r.seen_keys } =
              ground arith in
            subst {A = Reading (MetricSample fl.F64)} (λ s. Keyed key_of s.items s.seen_keys)
              (sym pushed)
              (item-Keyed key_of r.items r.seen_keys row p (ground arith) (ground arith))
      ]
    ]

-- The devices of a discovery have keys that are not empty, and no two have the same key.
pub discovery_keys :
    (tsv : String) (d : TsvResult DiscoveryDevice)
    → parse_discovery tsv ≡ parsed d
    → (any (λ i. i.device_key == "") d.items ≡ false)
      × (all_distinct (map (λ i. i.device_key) d.items) ≡ true)
unfolding parse_discovery
discovery_keys tsv d h =
    let (seen, (full, apart, known)) =
      result_keeps "DEVICE" device_row (Keyed (λ i. i.device_key)) device-Keyed (rows_of tsv) d
        (nothing-Keyed (λ i. i.device_key)) h in
    (full, apart)

-- The samples of a measurement have keys that are not empty, and no two have the same key.
pub metrics_keys :
    (fl : Floats) (tsv : String) (d : TsvResult (MetricSample fl.F64))
    → parse_metrics fl tsv ≡ parsed d
    → (any (λ i. i.device_key == "") d.items ≡ false)
      × (all_distinct (map (λ i. i.device_key) d.items) ≡ true)
unfolding parse_metrics
metrics_keys fl tsv d h =
    let (seen, (full, apart, known)) =
      result_keeps "METRIC" (metric_row fl) (Keyed (λ i. i.device_key)) (sample-Keyed fl)
        (rows_of tsv) d (nothing-Keyed (λ i. i.device_key)) h in
    (full, apart)
