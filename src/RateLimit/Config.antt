-- ===== src/RateLimit/Config.antt =====
-- What `parseConfiguration` of extensions/local_rate_limit/plugin.cc accepts and what it stores.
use wasm_extensions.Prelude.{
  Bool-cases, ◌∙◌, ◌^◌, arith, false, ℕ, ◌*◌, ◌%◌, ◌≡◌, sym, ap, ◌↔◌, true, some, Option-cases, inl,
  inr, Bytes, codes,
}
use wasm_extensions.Json.{JsonLib, json_parse, value_as_unsigned, is_ok}
use wasm_extensions.RateLimit.Bucket.{word64}
use wasm_extensions.RateLimit.Plugin.{
  Limits, required_unsigned, read_interval, read_refill, read_limits, parse_configuration,
}

module _ (lib : JsonLib) where
  open lib use {
    Json, parse, is_discarded, is_object, is_number, is_string, get_unsigned, get_string, find,
    simple_atoi,
  }

  -- A value that is read as the number `n`: a number, or a string of the digits of one.
  pub data Reads (it : Json) (n : ℕ) : Type 0 where
    numeric : is_number it ≡ true → n ≡ get_unsigned it → Reads it n
    textual :
        is_number it ≡ false
        → is_string it ≡ true
        → simple_atoi (get_string it) ≡ some n
        → Reads it n

  -- A field is there, with a value that is read as `n`.
  pub record HasNumber (j : Json) (field : Bytes) (n : ℕ) : Type 0 where
    pub it : Json
    pub found : find j field ≡ some it
    pub reads : Reads it n

  -- The text is a JSON object with the three required numbers, and the members are these.
  pub record Accepted (text : Bytes) (limits : Limits) : Type 0 where
    pub tokens : ℕ
    pub refill : ℕ
    pub seconds : ℕ
    pub valid : is_discarded (parse text) ≡ false
    pub object : is_object (parse text) ≡ true
    pub max_tokens : HasNumber (parse text) (codes "max_tokens") tokens
    pub tokens_per_refill : HasNumber (parse text) (codes "tokens_per_refill") refill
    pub interval : HasNumber (parse text) (codes "refill_interval_sec") seconds
    pub members : limits ≡ record {
      max_tokens = tokens;
      tokens_per_refill = refill;
      refill_interval_nanosec = seconds * 1000000000 % 2 ^ 64;
    }

  value-Reads :
      (j : Json) (field : Bytes) (it : Json) (n : ℕ)
      → find j field ≡ some it
      → (required_unsigned lib j field ≡ some n) ↔ Reads it n
  unfolding required_unsigned value_as_unsigned is_ok
  value-Reads j field it n f = elim (Bool-cases (is_number it)) [
    | inl e ↦
        rw (f, required_unsigned, e)
          (
            λ k. numeric e (ground arith),
            λ r. elim r [ numeric d k ↦ ground arith | textual d g k ↦ absurd (cc) ],
          )
    | inr e ↦ elim (Bool-cases (is_string it)) [
      | inr g ↦
          rw (f, required_unsigned, e, g)
            (
              λ k. absurd (cc),
              λ r. elim r [ numeric d k ↦ absurd (cc) | textual d h k ↦ absurd (cc) ],
            )
      | inl g ↦ elim (Option-cases (simple_atoi (get_string it))) [
        | inl h ↦
            rw (f, required_unsigned, e, g, h)
              (
                λ k. absurd (cc),
                λ r. elim r [ numeric d k ↦ absurd (cc) | textual d l k ↦ absurd (cc) ],
              )
        | inr (m, h) ↦
            rw (f, required_unsigned, e, g, h)
              (
                λ k. textual e g (h ∙ k),
                λ r. elim r [ numeric d k ↦ absurd (cc) | textual d l k ↦ sym h ∙ k ],
              )
      ]
    ]
  ]

  required_unsigned-HasNumber :
      (j : Json) (field : Bytes) (n : ℕ)
      → (required_unsigned lib j field ≡ some n) ↔ HasNumber j field n
  unfolding required_unsigned
  required_unsigned-HasNumber j field n = (
    λ e. elim (Option-cases (find j field)) [
      | inl f ↦ absurd (cc (rw (f, required_unsigned) at e))
      | inr (it, f) ↦ record { it = it; found = f; reads = (value-Reads j field it n f).0 e }
    ],
    λ h. (value-Reads j field h.it n h.found).1 h.reads,
  )

  json_parse-some :
      (text : Bytes) (j : Json)
      → json_parse lib text ≡ some j
      → (parse text ≡ j) × (is_discarded (parse text) ≡ false) × (is_object (parse text) ≡ true)
  unfolding json_parse
  json_parse-some text j e = ground arith

  some-json_parse :
      (text : Bytes)
      → is_discarded (parse text) ≡ false
      → is_object (parse text) ≡ true
      → json_parse lib text ≡ some (parse text)
  unfolding json_parse
  some-json_parse text valid object = ground arith

  interval_read :
      (j : Json) (before limits : Limits)
      → read_interval lib j before ≡ (true, limits)
      → (seconds : ℕ) × (required_unsigned lib j (codes "refill_interval_sec") ≡ some seconds)
        × (limits ≡ record before { refill_interval_nanosec = seconds * 1000000000 % word64 })
  unfolding read_interval
  interval_read j before limits e =
      elim (Option-cases (required_unsigned lib j (codes "refill_interval_sec"))) [
        | inl f ↦ absurd (cc (ap (λ p. p.0) (rw (f, read_interval) at e)))
        | inr (n, f) ↦ (n, f, sym (ap (λ p. p.1) (rw (f, read_interval) at e)))
      ]

  refill_read :
      (j : Json) (before limits : Limits)
      → read_refill lib j before ≡ (true, limits)
      → (refill : ℕ) × (required_unsigned lib j (codes "tokens_per_refill") ≡ some refill)
        × (read_interval lib j (record before { tokens_per_refill = refill }) ≡ (true, limits))
  unfolding read_refill
  refill_read j before limits e =
      elim (Option-cases (required_unsigned lib j (codes "tokens_per_refill"))) [
        | inl f ↦ absurd (cc (ap (λ p. p.0) (rw (f, read_refill) at e)))
        | inr (n, f) ↦ (n, f, rw (f, read_refill) at e)
      ]

  limits_read :
      (j : Json) (before limits : Limits)
      → read_limits lib j before ≡ (true, limits)
      → (tokens : ℕ) × (required_unsigned lib j (codes "max_tokens") ≡ some tokens)
        × (read_refill lib j (record before { max_tokens = tokens }) ≡ (true, limits))
  unfolding read_limits
  limits_read j before limits e =
      elim (Option-cases (required_unsigned lib j (codes "max_tokens"))) [
        | inl f ↦ absurd (cc (ap (λ p. p.0) (rw (f, read_limits) at e)))
        | inr (n, f) ↦ (n, f, rw (f, read_limits) at e)
      ]

  fields_read :
      (text : Bytes) (j : Json) (before limits : Limits)
      → json_parse lib text ≡ some j
      → read_limits lib j before ≡ (true, limits)
      → Accepted text limits
  fields_read text j before limits f e =
      let (tokens, tokens_eq, e₁) = limits_read j before limits e in
      let (refill, refill_eq, e₂) = refill_read j _ limits e₁ in
      let (seconds, seconds_eq, e₃) = interval_read j _ limits e₂ in
      let (same, valid, object) = json_parse-some text j f in
      let number : (field : Bytes) (n : ℕ)
          → required_unsigned lib j field ≡ some n
          → HasNumber (parse text) field n =
        λ field n r. rw same ((required_unsigned-HasNumber j field n).0 r) in
      record {
        tokens = tokens;
        refill = refill;
        seconds = seconds;
        valid = valid;
        object = object;
        max_tokens = number _ tokens tokens_eq;
        tokens_per_refill = number _ refill refill_eq;
        interval = number _ seconds seconds_eq;
        members = e₃;
      }

  accepted→ :
      (text : Bytes) (before limits : Limits)
      → parse_configuration lib text before ≡ (true, limits)
      → Accepted text limits
  unfolding parse_configuration
  accepted→ text before limits e = elim (Option-cases (json_parse lib text)) [
    | inl f ↦ absurd (cc (ap (λ p. p.0) (rw (f, parse_configuration) at e)))
    | inr (j, f) ↦ fields_read text j before limits f (rw (f, parse_configuration) at e)
  ]

  -- `parseConfiguration` succeeds exactly on a text that parses as a JSON object whose three required
  -- fields are numbers, or strings that `SimpleAtoi` reads, and then the members are those numbers,
  -- the interval in nanoseconds modulo 2^64, whatever they were.
  pub parse_configuration-Accepted :
      (text : Bytes) (before limits : Limits)
      → (parse_configuration lib text before ≡ (true, limits)) ↔ Accepted text limits
  unfolding parse_configuration read_limits read_refill read_interval
  parse_configuration-Accepted text before limits = (
    accepted→ text before limits,
    λ a.
        let read =
          λ (field : Bytes) (n : ℕ). (required_unsigned-HasNumber (parse text) field n).1 in
        rw (
          parse_configuration,
          some-json_parse text a.valid a.object,
          read_limits,
          read _ _ a.max_tokens,
          read_refill,
          read _ _ a.tokens_per_refill,
          read_interval,
          read _ _ a.interval,
          a.members,
        ),
  )
