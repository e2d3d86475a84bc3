-- ===== src/RateLimit/Memory.antt =====
-- Shared data in two cells, to show that the laws that the models ask of the host can be met.
use wasm_extensions.Prelude.{
  ℕ, ◌+◌, ◌<◌, ◌≤◌, ◌≡◌, ◌≢◌, refl, ◌⊎◌, inl, inr, Bool, true, false, Option, none, some, arith,
  ◌==◌, leb, if◌then◌else◌,
}
use wasm_extensions.Host.{WasmResult, ok, cas_mismatch, failed, is_ok}
use wasm_extensions.RateLimit.Shared.{Key, token_bucket, last_refilled, Written, SharedData}

abbrev pub Cells : Type 0
Cells = Option (ℕ × ℕ) × Option (ℕ × ℕ)

abbrev pick : Cells → Key → Option (ℕ × ℕ)
pick (a, b) token_bucket = a
pick (a, b) last_refilled = b

abbrev put : Cells → Key → Option (ℕ × ℕ) → Cells
put (a, b) token_bucket x = (x, b)
put (a, b) last_refilled x = (a, x)

abbrev number : Option (ℕ × ℕ) → ℕ
number none = 0
number (some (v, n)) = n + 1

abbrev shown : Option (ℕ × ℕ) → Option (ℕ × ℕ)
shown none = none
shown (some (v, n)) = some (v, n + 1)

abbrev newest_of : Cells → ℕ
newest_of (a, b) = if leb (number a) (number b) then number b else number a

abbrev get : Option (ℕ × ℕ) → WasmResult × ℕ × ℕ
get none = (failed 1, 0, 0)
get (some (v, n)) = (ok, v, n + 1)

abbrev refused : Option (ℕ × ℕ) → ℕ → Bool
refused none c = false
refused (some (v, n)) c = if c == 0 then false else (if c == n + 1 then false else true)

abbrev set : Cells → Key → ℕ → ℕ → WasmResult × Cells
set s k v c =
    if refused (pick s k) c then (cas_mismatch, s) else (ok, put s k (some (v, newest_of s)))

pub bounds :
    (s : Cells) (k : Key) (v c : ℕ) → shown (pick s k) ≡ some (v, c) → (0 < c) × (c ≤ newest_of s)
bounds (none, b) token_bucket v c e = absurd (cc)
bounds (some (u, n), none) token_bucket v c e = ground arith
bounds (some (u, n), some (w, m)) token_bucket v c e = ground arith
bounds (a, none) last_refilled v c e = absurd (cc)
bounds (none, some (w, m)) last_refilled v c e = ground arith
bounds (some (u, n), some (w, m)) last_refilled v c e = ground arith

pub put-Written :
    (a b : Option (ℕ × ℕ)) (k : Key) (v : ℕ)
    → Written
        (λ t j. shown (pick t j))
        newest_of
        (a, b)
        (put (a, b) k (some (v, newest_of (a, b))))
        k
        v
put-Written a b token_bucket v = record {
  now = ground arith;
  newer = ground arith;
  others = elim [ token_bucket ↦ λ ne. absurd (ne refl) | last_refilled ↦ λ ne. refl ];
}
put-Written a b last_refilled v = record {
  now = ground arith;
  newer = ground arith;
  others = elim [ token_bucket ↦ λ ne. refl | last_refilled ↦ λ ne. absurd (ne refl) ];
}

pub found : (o : Option (ℕ × ℕ)) (v c : ℕ) → shown o ≡ some (v, c) → get o ≡ (ok, v, c)
found none v c e = absurd (cc)
found (some (w, n)) v c e = ground arith

pub missing : (o : Option (ℕ × ℕ)) → shown o ≡ none → is_ok (get o).0 ≡ false
unfolding is_ok
missing none e = refl
missing (some x) e = absurd (cc)

pub stale :
    (o : Option (ℕ × ℕ)) (v₀ c c₀ : ℕ)
    → shown o ≡ some (v₀, c₀)
    → c ≢ 0
    → c ≢ c₀
    → refused o c ≡ true
stale none v₀ c c₀ e z ne = absurd (cc)
stale (some (w, n)) v₀ c c₀ e z ne = ground arith

pub accepted :
    (o : Option (ℕ × ℕ)) (c : ℕ)
    → (c ≡ 0) ⊎ ((shown o ≡ none) ⊎ ((v₀ : ℕ) × (shown o ≡ some (v₀, c))))
    → refused o c ≡ false
accepted none c h = refl
accepted (some (w, n)) c (inl e) = ground arith
accepted (some (w, n)) c (inr (inl e)) = absurd (cc)
accepted (some (w, n)) c (inr (inr (v₀, e))) = ground arith

abbrev pub memory : SharedData
memory = record {
  Store = Cells;
  cell = λ s k. shown (pick s k);
  newest = newest_of;
  get_shared_data = λ s k. get (pick s k);
  set_shared_data = set;
  number_bounds = bounds;
  get_found = λ s k. found (pick s k);
  get_missing = λ s k. missing (pick s k);
  set_mismatch = λ s k v v₀ c c₀ e z ne. rw (stale (pick s k) v₀ c c₀ e z ne);
  set_stored = λ s k v c h. rw (accepted (pick s k) c h) (refl, put-Written s.0 s.1 k v);
}
