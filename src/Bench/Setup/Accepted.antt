-- ===== src/Bench/Setup/Accepted.antt =====
-- What holds once jspubActions has accepted its settings.
use natscli.Prelude.{
  ℕ, ◌/◌, ◌≤◌, ◌<◌, min, Bool, true, false, not, ◌&&◌, List, [], ◌∷◌, ◌↔◌, ◌⊎◌, inl, inr, ◌≡◌, refl,
  sym, ap, ◌∙◌, arith, ltb, ◌==◌, if◌then◌else◌, ltb→lt, ltb_false→le, Bool-cases, length, All,
}
use native.Mathlib.Nat.{le-div_iff_mul-le}
use natscli.Bench.Clients.{msgs_per_client}
use natscli.Bench.Clients.Shares.{Even, msgs_per_client_lem}
use natscli.Bench.Setup.{
  PubType, is_atomic, is_fast, Setup, StreamSetup, incompatible_persist_mode, set_up, with_clients,
  with_batch_size, stream_setup, jspub_setup,
}

Even-positive : (m : ℕ) (xs : List ℕ) → 1 ≤ m → Even m xs → All (λ x. 1 ≤ x) xs
Even-positive m [] h e = tt
Even-positive m (x ∷ xs) h (e, es) = (omega arith, Even-positive m xs h es)

clients_lem :
    (c : Setup)
    → ((with_clients c).num_clients ≡ min c.num_clients c.num_msg)
      × ((with_clients c).num_msg ≡ c.num_msg)
      × ((with_clients c).replicas ≡ c.replicas)
      × ((with_clients c).persist_mode_async ≡ c.persist_mode_async)
      × ((with_clients c).batch_size ≡ c.batch_size)
unfolding with_clients
clients_lem c = elim (Bool-cases (ltb c.num_msg c.num_clients)) [
  | inl e ↦ let lt = ltb→lt _ _ e in rw e (omega arith, refl, refl, refl, refl)
  | inr e ↦ let le = ltb_false→le _ _ e in rw e (omega arith, refl, refl, refl, refl)
]

size_lem :
    (t : PubType) (c : Setup)
    → ((with_batch_size t c).num_clients ≡ c.num_clients)
      × ((with_batch_size t c).num_msg ≡ c.num_msg)
      × ((with_batch_size t c).replicas ≡ c.replicas)
      × ((with_batch_size t c).persist_mode_async ≡ c.persist_mode_async)
      × ((is_fast t ≡ false) ⊎ ((with_batch_size t c).batch_size ≤ 65535))
unfolding with_batch_size
size_lem t c = elim (Bool-cases (is_fast t && ltb 65535 c.batch_size)) [
  | inl e ↦ rw e (refl, refl, refl, refl, inr (omega arith))
  | inr e ↦
      let fits : (is_fast t ≡ false) ⊎ (c.batch_size ≤ 65535) = ground arith in
      rw e (refl, refl, refl, refl, fits)
]

chosen :
    (b : Bool) (x c : Setup) (y s : StreamSetup)
    → (if b then incompatible_persist_mode else set_up x y) ≡ set_up c s
    → (b ≡ false) × (x ≡ c) × (y ≡ s)
chosen true x c y s h = cc
chosen false x c y s h = (refl, cc, cc)

both_steps :
    (t : PubType) (before : Setup)
    → ((with_batch_size t (with_clients before)).num_clients
        ≡ min before.num_clients before.num_msg)
      × ((with_batch_size t (with_clients before)).num_msg ≡ before.num_msg)
      × ((with_batch_size t (with_clients before)).replicas ≡ before.replicas)
      × ((with_batch_size t (with_clients before)).persist_mode_async ≡ before.persist_mode_async)
      × ((is_fast t ≡ false) ⊎ ((with_batch_size t (with_clients before)).batch_size ≤ 65535))
both_steps t before =
    let (a, b, r, p, x) = clients_lem before in
    let (a2, b2, r2, p2, f) = size_lem t (with_clients before) in
    (a2 ∙ a, b2 ∙ b, r2 ∙ r, p2 ∙ p, f)

-- Accepted settings with a message and a client leave every client a message at least, keep the number
-- of messages, and give the fast publisher a batch size that fits its 16 bits.
jspub_setup-shares :
    (t : PubType) (before c : Setup) (s : StreamSetup)
    → 0 < before.num_msg
    → 0 < before.num_clients
    → jspub_setup t before ≡ set_up c s
    → (c.num_msg ≡ before.num_msg)
      × (length (msgs_per_client c.num_msg c.num_clients) ≡ min before.num_clients before.num_msg)
      × All (λ n. 1 ≤ n) (msgs_per_client c.num_msg c.num_clients)
      × ((is_fast t ≡ false) ⊎ (c.batch_size ≤ 65535))
unfolding jspub_setup
jspub_setup-shares t before c s some_msg some_client h =
    let (passed, same, stream) = chosen _ _ c _ s h in
    let (clients, messages, r, p, fits) = both_steps t before in
    let clients_c : c.num_clients ≡ min before.num_clients before.num_msg =
      ap (λ x. x.num_clients) (sym same) ∙ clients in
    let messages_c : c.num_msg ≡ before.num_msg = ap (λ x. x.num_msg) (sym same) ∙ messages in
    let (count, total, even) =
      msgs_per_client_lem c.num_msg c.num_clients (omega arith) (omega arith) in
    let some_of : 0 < c.num_clients = omega arith in
    let share : 1 ≤ c.num_msg / c.num_clients = (le-div_iff_mul-le some_of).1 (omega arith) in
    (messages_c, count ∙ clients_c, Even-positive _ _ share even, rw same at fits)

async_iff :
    (n : ℕ) (atomic asked : Bool)
    → ((n == 1 && (not atomic && asked)) ≡ true) ↔ ((asked ≡ true) × (n ≡ 1) × (atomic ≡ false))
async_iff n atomic asked = ground arith

-- Where settings are accepted, the stream persists asynchronously exactly if that was asked for, of one
-- replica, and not in atomic batches; else it is not, and allows atomic batches.
jspub_setup-persists :
    (t : PubType) (before c : Setup) (s : StreamSetup)
    → jspub_setup t before ≡ set_up c s
    → ((s.async_persist_mode ≡ true)
        ↔ ((before.persist_mode_async ≡ true) × (before.replicas ≡ 1) × (is_atomic t ≡ false)))
      × (s.allow_atomic_publish ≡ not s.async_persist_mode)
unfolding jspub_setup stream_setup
jspub_setup-persists t before c s h =
    let (passed, same, stream) = chosen _ _ c _ s h in
    let (clients, messages, r, p, fits) = both_steps t before in
    let mode : s.async_persist_mode
        ≡ (before.replicas == 1 && (not (is_atomic t) && before.persist_mode_async)) =
      ap (λ x. x.async_persist_mode) (sym stream)
      ∙ ap
          (λ n.
            n == 1
            && (not (is_atomic t) && (with_batch_size t (with_clients before)).persist_mode_async))
          r
      ∙ ap (λ b. before.replicas == 1 && (not (is_atomic t) && b)) p in
    let allow : s.allow_atomic_publish ≡ not s.async_persist_mode =
      ap (λ x. x.allow_atomic_publish) (sym stream) ∙ ap (λ x. not x.async_persist_mode) stream in
    (rw mode (async_iff before.replicas (is_atomic t) before.persist_mode_async), allow)

-- Accepted settings with a message and a client leave every client a message at least, keep the number
-- of messages, and give the fast publisher a batch size that fits its 16 bits; the stream persists
-- asynchronously exactly if that was asked for, of one replica, and not in atomic batches, and else
-- allows atomic batches.
pub jspub_setup_lem :
    (t : PubType) (before c : Setup) (s : StreamSetup)
    → 0 < before.num_msg
    → 0 < before.num_clients
    → jspub_setup t before ≡ set_up c s
    → ((c.num_msg ≡ before.num_msg)
        × (length (msgs_per_client c.num_msg c.num_clients) ≡ min before.num_clients before.num_msg)
        × All (λ n. 1 ≤ n) (msgs_per_client c.num_msg c.num_clients)
        × ((is_fast t ≡ false) ⊎ (c.batch_size ≤ 65535)))
      × ((s.async_persist_mode ≡ true)
          ↔ ((before.persist_mode_async ≡ true) × (before.replicas ≡ 1) × (is_atomic t ≡ false)))
      × (s.allow_atomic_publish ≡ not s.async_persist_mode)
jspub_setup_lem t before c s some_msg some_client h =
    let (mode, allow) = jspub_setup-persists t before c s h in
    (jspub_setup-shares t before c s some_msg some_client h, mode, allow)
