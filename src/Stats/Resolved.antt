-- ===== src/Stats/Resolved.antt =====
-- The statistics that the generators of extensions/stats resolve for a protocol, and the loops of
-- `report` over them.
use mathlib.Core.Path.{subst, ap₂}
use mathlib.Core.Option.{some-injective, none-ne-some}
use wasm_extensions.Prelude.{
  ℕ, ◌≡◌, refl, ap, ◌∙◌, sym, Bytes, bytes_eq, bytes_eq_iff, codes, Bool, true, List, [], ◌∷◌,
  Option, some, inl, inr, if◌then◌else◌, arith, Bool-cases, All, get_or,
}
use wasm_extensions.Common.Request.{RequestInfo, Protocol, unspecified, tcp, http, grpc}
use wasm_extensions.Stats.Labels.{request_protocol}
use wasm_extensions.Stats.Metrics.{
  Extractor, extract, SimpleStat, Recorded, record_stat, StatGen, matches_protocol, resolve,
}
use wasm_extensions.Stats.Report.{
  Libs, Env, dims_eq, find_metrics, record_if_due, record_hit, record_miss,
}

-- The protocol that dimensions name.
abbrev pub protocol_at : List Bytes → Protocol
protocol_at dims =
    let name = get_or dims request_protocol [] in
    if bytes_eq name (codes "tcp")
    then tcp
    else (if bytes_eq name (codes "http")
        then http
        else (if bytes_eq name (codes "grpc") then grpc else unspecified))

dims_eq→eq : (xs ys : List Bytes) → dims_eq xs ys ≡ true → xs ≡ ys
unfolding dims_eq
dims_eq→eq [] [] e = refl
dims_eq→eq [] (y ∷ ys) e = absurd (cc)
dims_eq→eq (x ∷ xs) [] e = absurd (cc)
dims_eq→eq (x ∷ xs) (y ∷ ys) e =
    ap₂ ◌∷◌ ((bytes_eq_iff x y).0 (ground arith)) (dims_eq→eq xs ys (ground arith))

-- What holds of every entry holds of the one that is found.
pub find_metrics-All {ℓ κ} :
    {V : Type ℓ} (P : List Bytes × V → Type κ) (k : List Bytes) (v : V) (ms : List (List Bytes × V))
    → find_metrics k ms ≡ some v
    → All P ms
    → P (k, v)
unfolding find_metrics
find_metrics-All P k v [] e a = absurd (none-ne-some v e)
find_metrics-All P k v ((l, w) ∷ ms) e a = elim (Bool-cases (dims_eq k l)) [
  | inl q ↦
      subst (λ x. P (x, v)) (sym (dims_eq→eq k l q))
        (subst (λ x. P (l, x)) (some-injective w v (rw (q, find_metrics) at e)) a.0)
  | inr q ↦ find_metrics-All P k v ms (rw (q, find_metrics) at e) a.1
]

extract-protocol :
    (evaluate : ℕ → Option ℕ) (e : Extractor) (r : RequestInfo)
    → (extract evaluate e r).1.request_protocol ≡ r.request_protocol
unfolding extract
extract-protocol evaluate e r = ground arith

-- The statistics of the generators for a protocol.
abbrev pub stats_for : (Bytes → ℕ) → List StatGen → Protocol → List Bytes → List SimpleStat
stats_for names [] p dims = []
stats_for names (g ∷ gs) p dims =
    let rest = stats_for names gs p dims in
    if matches_protocol g p then resolve names g dims ∷ rest else rest

module _ (libs : Libs) (env : Env) where
  record_if_due-protocol :
      (end_stream : Bool) (stat : SimpleStat) (r : RequestInfo)
      → (record_if_due libs env end_stream stat r).1.request_protocol ≡ r.request_protocol
  unfolding record_if_due record_stat
  record_if_due-protocol end_stream stat r =
      ground (arith, extract-protocol env.evaluate_int stat.value_fn r)

  -- The loop over the generators records what the loop over their statistics does.
  pub record_miss-hit :
      (end_stream : Bool) (dims : List Bytes) (gs : List StatGen) (r : RequestInfo) (p : Protocol)
      → r.request_protocol ≡ p
      → ◌≡◌ {A = List Recorded × RequestInfo × List SimpleStat}
          (record_miss libs env end_stream dims gs r)
          (
            (record_hit libs env end_stream (stats_for libs.resolve_full_name gs p dims) r).0,
            (record_hit libs env end_stream (stats_for libs.resolve_full_name gs p dims) r).1,
            stats_for libs.resolve_full_name gs p dims,
          )
  unfolding record_miss record_hit
  record_miss-hit end_stream dims [] r p e = refl
  record_miss-hit end_stream dims (g ∷ gs) r p e =
      let stat = resolve libs.resolve_full_name g dims in
      let r' = (record_if_due libs env end_stream stat r).1 in
      elim (Bool-cases (matches_protocol g p)) [
        | inl m ↦
            rw (ap (matches_protocol g) e ∙ m, m, record_miss)
              (rw
                (
                  record_miss-hit end_stream dims gs r' p
                      (record_if_due-protocol end_stream stat r ∙ e),
                  record_hit,
                )
                refl)
        | inr m ↦
            rw (ap (matches_protocol g) e ∙ m, m, record_miss)
              (record_miss-hit end_stream dims gs r p e)
      ]
