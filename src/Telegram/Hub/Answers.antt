-- ===== src/Telegram/Hub/Answers.antt =====
-- What the answers of `TelegramHub.handle` mean.
use vpsssssskjwjw.Prelude.{ℕ, ◌≤◌, ◌≡◌, ◌≢◌, false, Option, Text, text_eq, Eq, nat_eq, arith}
use vpsssssskjwjw.Telegram.Dedup
use vpsssssskjwjw.Telegram.Dedup.{prune, Deduplicator, begin, discard, Disposition}
use vpsssssskjwjw.Security.TokenBucket
use vpsssssskjwjw.Security.TokenBucket.{refill}
use vpsssssskjwjw.Security.FailureCircuit
use vpsssssskjwjw.Telegram.Hub.{
  Bot, Shared, Settings, proceed, gate, admit, check_circuit, limit, deduplicate,
  sync_circuit_state, under_pressure,
}
use vpsssssskjwjw.Telegram.Hub.Reading.{
  Request, HttpLibrary, ok_true, Parsed, rejected, refused, update, read_request,
}

module _ {UpdateId : Type 0} ⦃e : Eq UpdateId⦄ where
  -- What a request has passed when its handler is about to run: no memory pressure, a closed
  -- circuit, a token of the rate limit, and an update that is neither completed nor in flight.
  pub record HasPassed (settings : Settings) (current limit' : Option ℕ) (i : UpdateId)
      (b : Bot UpdateId) (now : ℕ) : Type 0 where
    pub calm : under_pressure current limit' settings.memory_pressure_limit_pct ≡ false
    pub closed : (FailureCircuit.retry_after b.circuit now).0 ≡ 0
    pub token : TokenBucket.unit ≤ refill b.limiter now
    pub fresh : (begin b.dedup i now).0 ≡ Dedup.new

module _ {UpdateId Update : Type 0} ⦃e : Eq UpdateId⦄ where
  deduplicate_proceed :
      (i j : UpdateId) (u v : Update) (b : Bot UpdateId) (h : Shared) (now : ℕ)
      → (deduplicate i u b h now).0 ≡ proceed j v
      → (i ≡ j) × (u ≡ v) × ((begin b.dedup i now).0 ≡ Dedup.new)
  unfolding deduplicate
  deduplicate_proceed i j u v b h now p = ground arith

  limit_proceed :
      (i j : UpdateId) (u v : Update) (b : Bot UpdateId) (h : Shared) (now : ℕ)
      → (limit i u b h now).0 ≡ proceed j v
      → (i ≡ j)
        × (u ≡ v)
        × (TokenBucket.unit ≤ refill b.limiter now)
        × ((begin b.dedup i now).0 ≡ Dedup.new)
  unfolding limit TokenBucket.allow
  limit_proceed i j u v b h now p = ground (
    arith,
    deduplicate_proceed i j u v
        (record b { limiter = (TokenBucket.allow b.limiter TokenBucket.unit now).1 }) h now,
  )

  check_circuit_proceed :
      (i j : UpdateId) (u v : Update) (b : Bot UpdateId) (h : Shared) (now : ℕ)
      → (check_circuit i u b h now).0 ≡ proceed j v
      → (i ≡ j)
        × (u ≡ v)
        × ((FailureCircuit.retry_after b.circuit now).0 ≡ 0)
        × (TokenBucket.unit ≤ refill b.limiter now)
        × ((begin b.dedup i now).0 ≡ Dedup.new)
  unfolding check_circuit sync_circuit_state FailureCircuit.is_open FailureCircuit.recent_failures
  check_circuit_proceed i j u v b h now p =
      let b₁ = sync_circuit_state b now in
      let b₂ = record b₁ { circuit = (FailureCircuit.is_open b₁.circuit now).1 } in
      ground (arith, limit_proceed i j u v b₂ h now)

  admit_proceed :
      (settings : Settings) (current limit' : Option ℕ) (p : Parsed UpdateId Update)
      (b : Bot UpdateId) (h : Shared) (now : ℕ) (i : UpdateId) (u : Update)
      → (admit settings current limit' p b h now).0 ≡ proceed i u
      → (p ≡ update i u) × HasPassed settings current limit' i b now
  unfolding admit
  admit_proceed settings current limit' (rejected r) b h now i u q = absurd (cc q)
  admit_proceed settings current limit' (refused r) b h now i u q = absurd (cc q)
  admit_proceed settings current limit' (update j v) b h now i u q =
      ground (arith, q, check_circuit_proceed j i v u b h now)

  read_request-secret :
      (L : HttpLibrary UpdateId Update) (secret : Text) (r : Request) (cap : ℕ) (i : UpdateId)
      (u : Update)
      → read_request L secret r cap ≡ update i u
      → r.secret_token ≡ secret
  unfolding read_request
  read_request-secret L secret r cap i u h = ground (arith, h)

  -- The handler of an update runs only for a request with the bot's secret whose body is that update,
  -- and only when the checks in front of it have passed.
  pub gate_proceed :
      (L : HttpLibrary UpdateId Update) (settings : Settings) (current limit' : Option ℕ)
      (r : Request) (b : Bot UpdateId) (h : Shared) (now : ℕ) (i : UpdateId) (u : Update)
      → (gate L settings current limit' r b h now).0 ≡ proceed i u
      → (r.secret_token ≡ b.secret)
        × (read_request L b.secret r settings.webhook_max_body_bytes ≡ update i u)
        × HasPassed settings current limit' i b now
  unfolding gate
  gate_proceed L settings current limit' r b h now i u p =
      let (same, passed) =
        admit_proceed settings current limit'
          (read_request L b.secret r settings.webhook_max_body_bytes) b h now i u p in
      (read_request-secret L b.secret r settings.webhook_max_body_bytes i u same, same, passed)

  IsNotOk : Parsed UpdateId Update → Type 0
  IsNotOk p = (p ≢ rejected ok_true) × (p ≢ refused ok_true)
