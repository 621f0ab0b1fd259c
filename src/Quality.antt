-- ===== src/Quality.antt =====
-- src-tauri/src/proxy/target_quality.rs: what is known of a route's quality, bounded and aging.
-- The `BTreeMap` from order stamps to keys is its list in increasing order.
use proxy_load.Base.{
  ℕ, ◌+◌, ◌-◌, ◌%◌, ◌^◌, ◌≡◌, ◌↔◌, Bool, true, false, ◌&&◌, ◌||◌, Option, none, some, List, [], ◌∷◌,
  arith, if◌then◌else◌, leb, ltb, nat_beq, list_beq, list_beq_iff, nat_eq, PartialEq, length,
  is_some_and, max, unwrap_or,
}
use proxy_load.Base.Float.{Float}
use proxy_load.Base.Map.{Map, get, insert, remove}
use proxy_load.Models.{Bytes}

abbrev pub max_entries : ℕ
max_entries = 4096

abbrev pub ttl_ms : ℕ
ttl_ms = 300000

pub data Mode : Type 0 where
  off observe adaptive : Mode

abbrev pub is_off : Mode → Bool
is_off off = true
is_off observe = false
is_off adaptive = false

abbrev pub is_adaptive : Mode → Bool
is_adaptive off = false
is_adaptive observe = false
is_adaptive adaptive = true

pub data Measurement : Type 0 where
  socks_target_connect http_connect_response : Measurement

abbrev pub measurement_beq : Measurement → Measurement → Bool
measurement_beq socks_target_connect socks_target_connect = true
measurement_beq socks_target_connect http_connect_response = false
measurement_beq http_connect_response socks_target_connect = false
measurement_beq http_connect_response http_connect_response = true

pub record Key : Type 0 where
  pub proxy : ℕ
  pub generation : ℕ
  pub host : Bytes
  pub destination : Bytes
  pub port : ℕ
  pub measurement : Measurement

abbrev pub key_beq : Key → Key → Bool
key_beq a b =
    nat_beq a.proxy b.proxy
    && (nat_beq a.generation b.generation
        && (list_beq a.host b.host
            && (list_beq a.destination b.destination
                && (nat_beq a.port b.port && measurement_beq a.measurement b.measurement))))

pub key_beq_iff : (a b : Key) → (key_beq a b ≡ true) ↔ (a ≡ b)
key_beq_iff a b =
    ground (arith, list_beq_iff a.host b.host, list_beq_iff a.destination b.destination)

instance abbrev pub key_eq : PartialEq Key
key_eq = record { same = key_beq; same_iff = key_beq_iff }

-- The time of an observation and its number.
abbrev pub Stamp : Type 0
Stamp = ℕ × ℕ

abbrev pub stamp_lt : Stamp → Stamp → Bool
stamp_lt a b = ltb a.0 b.0 || nat_beq a.0 b.0 && ltb a.1 b.1

abbrev pub stamp_beq : Stamp → Stamp → Bool
stamp_beq a b = nat_beq a.0 b.0 && nat_beq a.1 b.1

pub record Sample (F : Type 0) : Type 0 where
  pub successes : F
  pub failures : F
  pub latency_us : Option F
  pub observed : ℕ
  pub last_exploration : ℕ
  pub order : Stamp

abbrev pub Expiry : Type 0
Expiry = List (Stamp × Key)

pub record TargetQuality (F : Type 0) : Type 0 where
  pub entries : Map Key (Sample F)
  pub expiry : Expiry
  pub sequence : ℕ

expiry_insert : Stamp → Key → Expiry → Expiry
expiry_insert o k [] = (o, k) ∷ []
expiry_insert o k ((p, j) ∷ rest) =
    if stamp_lt o p
    then (o, k) ∷ (p, j) ∷ rest
    else if stamp_beq o p
    then (o, k) ∷ rest
    else (p, j) ∷ expiry_insert o k rest

expiry_remove : Stamp → Expiry → Expiry
expiry_remove o [] = []
expiry_remove o ((p, j) ∷ rest) = if stamp_beq o p then rest else (p, j) ∷ expiry_remove o rest

module _ {F : Type 0} where
  -- Entries and expiry list, popped while the first one is due.
  prune_loop : ℕ → Expiry → Map Key (Sample F) → Map Key (Sample F) × Expiry
  prune_loop now [] entries = (entries, [])
  prune_loop now ((o, k) ∷ rest) entries =
      let next = prune_loop now rest (remove k entries) in
      if leb ttl_ms (now - o.0) then next else (entries, (o, k) ∷ rest)

  -- Popped while the entries are too many. (At an empty list the code would panic.)
  evict_loop : Expiry → Map Key (Sample F) → Map Key (Sample F) × Expiry
  evict_loop [] entries = (entries, [])
  evict_loop ((o, k) ∷ rest) entries =
      let next = evict_loop rest (remove k entries) in
      if leb max_entries (length entries) then next else (entries, (o, k) ∷ rest)

  unfoldable pub clear : TargetQuality F → TargetQuality F
  clear t = record t { entries = []; expiry = [] }

  pub prune : ℕ → TargetQuality F → TargetQuality F
  unfolding prune_loop
  prune now t =
      let (entries, expiry) = prune_loop now t.expiry t.entries in
      record t { entries = entries; expiry = expiry }

  unfoldable pub exploration_due : Key → ℕ → TargetQuality F → Bool
  exploration_due key now t =
      is_some_and (get key t.entries) (λ s. leb 30000 (now - max s.observed s.last_exploration))

  reserve_in : ℕ → Key → Option (Sample F) → TargetQuality F → TargetQuality F
  reserve_in now key none t = t
  reserve_in now key (some s) t = record t {
    entries = insert key (record s { last_exploration = now }) t.entries;
  }

  unfoldable pub reserved : Key → ℕ → TargetQuality F → TargetQuality F
  unfolding reserve_in
  reserved key now t = reserve_in now key (get key t.entries) t

module _ (fl : Float) where
  open fl use {F, of_ℕ, literal, add, sub, mul, div, clamp, ge, halving}

  fresh_sample : ℕ → Stamp → Sample F
  fresh_sample now order = record {
    successes = of_ℕ 0;
    failures = of_ℕ 0;
    latency_us = none;
    observed = now;
    last_exploration = now;
    order = order;
  }

  -- The weights of old observations are halved with every `ttl_ms`, and again when they are large.
  decayed : ℕ → Sample F → Sample F
  decayed now s =
      let decay = halving (now - s.observed) ttl_ms in
      let successes = mul s.successes decay in
      let failures = mul s.failures decay in
      if ge (add successes failures) (of_ℕ 64)
      then record s {
        successes = mul successes (literal 5 1);
        failures = mul failures (literal 5 1);
      }
      else record s { successes = successes; failures = failures }

  mix_latency : Option F → ℕ → F
  mix_latency none us = of_ℕ us
  mix_latency (some old) us = add (mul (literal 8 1) old) (mul (literal 2 1) (of_ℕ us))

  observed_latency : Option ℕ → Option F → Option F
  unfolding mix_latency
  observed_latency none old = old
  observed_latency (some us) old =
      some (mix_latency old (if leb us 300000000 then us else 300000000))

  counted : Bool → Option ℕ → Sample F → Sample F
  unfolding observed_latency
  counted true latency s = record s {
    successes = add s.successes (of_ℕ 1);
    latency_us = observed_latency latency s.latency_us;
  }
  counted false latency s = record s { failures = add s.failures (of_ℕ 1) }

  -- `TargetQuality::record`.
  pub record_sample : Key → Bool → Option ℕ → ℕ → TargetQuality F → TargetQuality F
  unfolding prune evict_loop fresh_sample decayed counted expiry_insert expiry_remove
  record_sample key success latency now t =
      let pruned = prune now t in
      let sequence = (pruned.sequence + 1) % 2 ^ 64 in
      let order : Stamp = (now, sequence) in
      let old = unwrap_or (get key pruned.entries) (fresh_sample now order) in
      let sample = record (counted success latency (decayed now old)) {
        observed = now;
        order = order;
      } in
      let (entries, expiry) =
        evict_loop (expiry_remove old.order pruned.expiry) (remove key pruned.entries) in
      record {
        entries = insert key sample entries;
        expiry = expiry_insert order key expiry;
        sequence = sequence;
      }

  latency_factor : Option F → F
  latency_factor none = of_ℕ 1
  latency_factor (some us) = div (of_ℕ 1) (add (of_ℕ 1) (div us (of_ℕ 500000)))

  multiplier_of : ℕ → Sample F → F
  unfolding latency_factor
  multiplier_of now s =
      let age = now - s.observed in
      let freshness = sub (of_ℕ 1) (div (of_ℕ age) (of_ℕ ttl_ms)) in
      let n = add s.successes s.failures in
      let confidence = mul (fl.min (div n (add n (of_ℕ 8))) (literal 8 1)) freshness in
      let probability = div (add s.successes (of_ℕ 1)) (add n (of_ℕ 2)) in
      if leb ttl_ms age
      then of_ℕ 1
      else clamp
          (add (sub (of_ℕ 1) confidence)
            (mul (mul confidence probability) (latency_factor s.latency_us)))
          (literal 2 1) (of_ℕ 1)

  -- `TargetQuality::multiplier`.
  pub multiplier : Key → ℕ → TargetQuality F → F
  unfolding multiplier_of
  multiplier key now t = elim (get key t.entries) [ none ↦ of_ℕ 1 | some s ↦ multiplier_of now s ]
