-- ===== src/Opa/Cache.antt =====
-- extensions/open_policy_agent/cache.{h,cc}: `ResultCache`. The two `unordered_map`s, which are
-- only searched, written and erased by key, are functions. A node of the list `recent_` has a
-- number of its own, which stands for the iterators that point to it; an operation that would
-- follow an iterator to no node, or read the back of an empty list, is undefined behaviour.
use wasm_extensions.Prelude.{
  ℕ, ◌+◌, ◌-◌, ◌*◌, ◌%◌, ◌^◌, Bool, Option, none, some, List, [], ◌∷◌, if◌then◌else◌, ◌==◌, ltb,
  leb, length, Bytes,
}

-- `Payload`
pub record Payload : Type 0 where
  pub source_principal : Bytes
  pub destination_workload : Bytes
  pub request_method : Bytes
  pub request_url_path : Bytes

pub data Result {ℓ} (A : Type ℓ) : Type ℓ where
  defined : A → Result A
  undefined : Result A

infixl 5 ◌>>=◌
abbrev pub ◌>>=◌ {ℓ κ} : {A : Type ℓ} {B : Type κ} → Result A → (A → Result B) → Result B
defined a >>= f = f a
undefined >>= f = undefined

abbrev pub word64 : ℕ
word64 = 2 ^ 64

-- `ResultCache`: a list element is its node's number and its hash; `next_node` has not been used.
pub record ResultCache : Type 0 where
  pub valid_for_nanosec : ℕ
  pub result_cache : ℕ → Option (Bool × ℕ)
  pub recent : List (ℕ × ℕ)
  pub pos : ℕ → Option ℕ
  pub next_node : ℕ

-- The members' default values.
abbrev pub empty_cache : ResultCache
empty_cache = record {
  valid_for_nanosec = 10000000000;
  result_cache = λ hash. none;
  recent = [];
  pos = λ hash. none;
  next_node = 0;
}

-- `map[k] = v`, `map.erase(k)` and `map.emplace(k, v)`.
module _ {ℓ} {V : Type ℓ} where
  unfoldable pub assign : (ℕ → Option V) → ℕ → V → ℕ → Option V
  assign m k v j = if k == j then some v else m j

  unfoldable pub remove : (ℕ → Option V) → ℕ → ℕ → Option V
  remove m k j = if k == j then none else m j

  unfoldable pub emplace : (ℕ → Option V) → ℕ → V → ℕ → Option V
  emplace m k v = elim (m k) [ none ↦ assign m k v | some old ↦ m ]

-- `list.erase(iterator)`
unfoldable pub erase_node : ℕ → List (ℕ × ℕ) → Result (List (ℕ × ℕ))
erase_node n [] = undefined
erase_node n ((m, h) ∷ r) =
    if m == n then defined r else (do r' ← erase_node n r; defined ((m, h) ∷ r'))

-- `list.back()` and `list.pop_back()`: the hash at the back, and the list without it.
unfoldable pub pop_back : List (ℕ × ℕ) → Result (ℕ × List (ℕ × ℕ))
pop_back [] = undefined
pop_back ((n, h) ∷ []) = defined (h, [])
pop_back ((n, h) ∷ e ∷ r) = do (old, r') ← pop_back (e ∷ r); defined (old, (n, h) ∷ r')

-- `int old = hash`, used as a key again: the low 32 bits, with the sign extended to 64.
unfoldable pub through_int : ℕ → ℕ
through_int hash =
    let low = hash % 2 ^ 32 in if ltb low (2 ^ 31) then low else low + (word64 - 2 ^ 32)

-- `recent_.push_front(hash); pos_[hash] = recent_.begin();`
unfoldable pub push_front : ℕ → ResultCache → ResultCache
push_front hash c = record c {
  recent = (c.next_node, hash) ∷ c.recent;
  pos = assign c.pos hash c.next_node;
  next_node = c.next_node + 1;
}

-- `computeHash`; `hash_of` is `std::hash<std::string>`.
unfoldable pub compute_hash : (Bytes → ℕ) → Payload → ℕ
compute_hash hash_of payload =
    let k_mul : ℕ = 0x9ddfea08eb382d69 in
    let h₁ = (0 + hash_of payload.source_principal * k_mul) % word64 in
    let h₂ = (h₁ + hash_of payload.destination_workload * k_mul) % word64 in
    let h₃ = (h₂ + hash_of payload.request_method * k_mul) % word64 in
    (h₃ + hash_of payload.request_url_path * k_mul) % word64

-- `setValidDuration`
unfoldable pub set_valid_duration : ℕ → ResultCache → ResultCache
set_valid_duration valid_for_sec c = record c {
  valid_for_nanosec = valid_for_sec * 1000000000 % word64;
}

abbrev pub max_num_entry : ℕ
max_num_entry = 1000

-- `max_entries` stands for `MAX_NUM_ENTRY`.
module _ (max_entries : ℕ) where
  -- The eviction of the back element.
  unfoldable pub evict : ResultCache → Result ResultCache
  evict c = do
    (back, rest) ← pop_back c.recent
    let old = through_int back
    defined (record c {
      recent = rest;
      result_cache = remove c.result_cache old;
      pos = remove c.pos old;
    })

  -- `use`: how it makes room, and as a whole.
  unfoldable pub make_room : ℕ → ResultCache → Result ResultCache
  make_room hash c = elim (c.pos hash) [
    | some node ↦ do r ← erase_node node c.recent; defined (record c { recent = r })
    | none ↦ if leb max_entries (length c.recent) then evict c else defined c
  ]

  unfoldable pub use_hash : ℕ → ResultCache → Result ResultCache
  use_hash hash c = do c' ← make_room hash c; defined (push_front hash c')

  -- The removal of an expired entry.
  unfoldable pub expire : ℕ → ResultCache → Result ResultCache
  expire hash c = elim (c.pos hash) [
    | none ↦ undefined
    | some node ↦ do
      r ← erase_node node c.recent
      defined (record c {
        recent = r;
        pos = remove c.pos hash;
        result_cache = remove c.result_cache hash;
      })
  ]

  -- `check` at a hash: the cache, and the cached answer on a hit.
  unfoldable pub check_hash : ℕ → ℕ → ResultCache → Result (ResultCache × Option Bool)
  check_hash hash timestamp c = elim (c.result_cache hash) [
    | none ↦ defined (c, none)
    | some (allowed, inserted) ↦
        if ltb timestamp ((inserted + c.valid_for_nanosec) % word64)
        then (do c' ← use_hash hash c; defined (c', some allowed))
        else (do c' ← expire hash c; defined (c', none))
  ]

  -- `check`, which hands out the hash too.
  unfoldable pub check :
      (Bytes → ℕ) → Payload → ℕ → ResultCache → Result (ℕ × ResultCache × Option Bool)
  check hash_of payload timestamp c =
      let hash = compute_hash hash_of payload in
      do (c', hit) ← check_hash hash timestamp c; defined (hash, c', hit)

  -- `add`
  unfoldable pub add : ℕ → Bool → ℕ → ResultCache → Result ResultCache
  add hash result timestamp c = do
    c' ← use_hash hash c
    defined (record c' { result_cache = emplace c'.result_cache hash (result, timestamp) })
