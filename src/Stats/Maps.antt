-- ===== src/Stats/Maps.antt =====
-- The data of `initializeDimensions` in extensions/stats/plugin.cc. The maps of the source, whose order
-- is not specified, are lists of their entries in the order of insertion.
use wasm_extensions.Prelude.{
  ℕ, zero, suc, ◌+◌, ltb, Bytes, bytes_eq, codes, Bool, true, false, not, ◌&&◌, ◌||◌, List, [], ◌∷◌,
  Option, none, some, if◌then◌else◌, take,
}
use wasm_extensions.Common.Properties.{get_value}
use wasm_extensions.Stats.Labels.{count_standard_labels, default_tags}
use wasm_extensions.Stats.Metrics.{MetricType, counter, gauge, histogram, one, MetricFactory}
use wasm_extensions.Stats.Report.{Root}

-- `find`, `operator[] =` and `erase` of a map.
abbrev pub look_up {ℓ} : {V : Type ℓ} → Bytes → List (Bytes × V) → Option V
look_up k [] = none
look_up k ((j, v) ∷ m) = let rest = look_up k m in if bytes_eq j k then some v else rest

abbrev pub store {ℓ} : {V : Type ℓ} → Bytes → V → List (Bytes × V) → List (Bytes × V)
store k v [] = (k, v) ∷ []
store k v ((j, w) ∷ m) =
    let rest = store k v m in if bytes_eq j k then (j, v) ∷ m else (j, w) ∷ rest

abbrev pub erase {ℓ} : {V : Type ℓ} → Bytes → List (Bytes × V) → List (Bytes × V)
erase k [] = []
erase k ((j, w) ∷ m) = let rest = erase k m in if bytes_eq j k then m else (j, w) ∷ rest

-- `std::sort` of strings.
abbrev pub string_less : Bytes → Bytes → Bool
string_less s [] = false
string_less [] (y ∷ ys) = true
string_less (x ∷ xs) (y ∷ ys) = ltb x y || (not (ltb y x) && string_less xs ys)

abbrev pub put_in_order : Bytes → List Bytes → List Bytes
put_in_order s [] = s ∷ []
put_in_order s (t ∷ ts) =
    let rest = put_in_order s ts in if string_less t s then t ∷ rest else s ∷ t ∷ ts

abbrev pub sort_strings : List Bytes → List Bytes
sort_strings [] = []
sort_strings (s ∷ ss) = put_in_order s (sort_strings ss)

-- The tags of a metric with their indexes; no index means that the tag is removed.
abbrev pub Indexes : Type 0
Indexes = List (Bytes × Option ℕ)

abbrev pub number_tags : ℕ → List Bytes → Indexes
number_tags i [] = []
number_tags i (t ∷ ts) = (t, some i) ∷ number_tags (i + 1) ts

-- The local variables of `initializeDimensions`, with the members and the host.
pub record Build (H : Type 0) : Type 0 where
  pub factories : List (Bytes × MetricFactory)
  pub metric_tags : List (Bytes × List Bytes)
  pub metric_indexes : List (Bytes × Indexes)
  pub root : Root
  pub host : H

-- The loop over `defaultMetrics`.
abbrev pub seed_factories : List MetricFactory → List (Bytes × MetricFactory)
seed_factories [] = []
seed_factories (f ∷ fs) = (f.name, f) ∷ seed_factories fs

abbrev pub seed_tags : List MetricFactory → List (Bytes × List Bytes)
seed_tags [] = []
seed_tags (f ∷ fs) = (f.name, take f.count_labels default_tags) ∷ seed_tags fs

abbrev pub seed_indexes : List MetricFactory → List (Bytes × Indexes)
seed_indexes [] = []
seed_indexes (f ∷ fs) = (f.name, number_tags 0 (take f.count_labels default_tags)) ∷ seed_indexes fs

abbrev pub new_factory : MetricFactory
new_factory = record {
  name = [];
  type = counter;
  extractor = one;
  protocols = 0;
  count_labels = 0;
  recurrent = false;
}

-- The type of a metric definition.
abbrev pub type_named : Bytes → MetricType
type_named t =
    if bytes_eq t (codes "GAUGE")
    then gauge
    else (if bytes_eq t (codes "HISTOGRAM") then histogram else counter)

-- The dimension of a string expression.
abbrev pub dimension_index : Option ℕ → Option ℕ
dimension_index none = none
dimension_index (some i) = some (count_standard_labels + i)

-- The tags that keep an index, and their indexes.
unfoldable pub kept_tags : List Bytes → Indexes → List Bytes × List ℕ
kept_tags [] indexes = ([], [])
kept_tags (t ∷ ts) indexes =
    let (tags, is) = kept_tags ts indexes in
    elim (get_value (look_up t indexes) none) [ none ↦ (tags, is) | some i ↦ (t ∷ tags, i ∷ is) ]

-- `resize` of the dimensions.
abbrev pub resize : ℕ → List Bytes → List Bytes
resize zero xs = []
resize (suc n) [] = [] ∷ resize n []
resize (suc n) (x ∷ xs) = x ∷ resize n xs
