-- ===== src/Client.antt =====
-- bench-harness/agent-interface/src/client.rs: the connection to an agent, which numbers its
-- requests, and the retries of a connection.
pub mod Stale
pub mod Retry
use multi_fuzz_benchmarks.Prelude.{
  ℕ, zero, suc, ◌+◌, ◌-◌, Bool, true, false, Option, none, some, List, [], ◌∷◌, ◌++◌, if◌then◌else◌,
  ltb, nat_beq,
}
use multi_fuzz_benchmarks.Prelude.Outcome.{Result, ok, err}

-- `IpcWrapper<T>`.
pub record IpcWrapper {ℓ} (T : Type ℓ) : Type ℓ where
  pub id : ℕ
  pub body : T

-- One call of `read_response`: the stream gives a message, or the read or its decoding fails.
pub data Read {ℓ} (T : Type ℓ) : Type ℓ where
  message : IpcWrapper T → Read T
  failed : Read T

pub data ClientError : Type 0 where
  send_failed : ClientError
  read_failed : ClientError
  unexpected_response : ℕ → ℕ → ClientError

-- `RpcAgent`: the stream to read from, what was written so far, and the number of the next request.
pub record RpcAgent {ℓ} (Req Resp : Type ℓ) : Type ℓ where
  pub reader : List (Read Resp)
  pub writer : List (IpcWrapper Req)
  pub next_request : ℕ

module _ {ℓ} {Resp : Type ℓ} where
  -- The `loop` of `send_request`. An empty stream is at its end, and what is read there is no
  -- message.
  unfoldable pub await_response : ℕ → List (Read Resp) → Result ClientError Resp × List (Read Resp)
  await_response request_id [] = (err read_failed, [])
  await_response request_id (failed ∷ rest) = (err read_failed, rest)
  await_response request_id (message m ∷ rest) =
      let later = await_response request_id rest in
      if ltb m.id request_id
      then later
      else if nat_beq m.id request_id
      then (ok m.body, rest)
      else (err (unexpected_response request_id m.id), rest)

module _ {ℓ} {Req Resp : Type ℓ} where
  unfoldable pub new : List (Read Resp) → RpcAgent Req Resp
  new reader = record { reader = reader; writer = []; next_request = 1 }

  -- `written` is whether the writer took the request; a read timeout is a `failed` read.
  unfoldable pub send_request :
      RpcAgent Req Resp → Bool → Req → Result ClientError Resp × RpcAgent Req Resp
  send_request self false request =
      (err send_failed, record self { next_request = self.next_request + 1 })
  send_request self true request =
      let (result, reader) = await_response self.next_request self.reader in
      (
        result,
        record {
          reader = reader;
          writer = self.writer ++ record { id = self.next_request; body = request } ∷ [];
          next_request = self.next_request + 1;
        },
      )

-- `retry`: the outer result of an attempt is an error that is not retried. `f i` is what the
-- `i`-th call gives; the number of calls made comes back with the result.
abbrev pub Attempt {ℓ κ} : Type κ → Type ℓ → Type (ℓ ⊔ κ)
Attempt E T = Result E (Result E T)

module _ {ℓ κ} {E : Type κ} {T : Type ℓ} where
  -- The `loop`, with `left` for `max_retries - retries`.
  unfoldable pub retry_loop : (ℕ → Attempt E T) → ℕ → ℕ → Result E T × ℕ
  retry_loop f retries zero = elim (f retries) [
    | err e ↦ (err e, suc retries)
    | ok (ok x) ↦ (ok x, suc retries)
    | ok (err e) ↦ (err e, suc retries)
  ]
  retry_loop f retries (suc left) = elim (f retries) [
    | err e ↦ (err e, suc retries)
    | ok (ok x) ↦ (ok x, suc retries)
    | ok (err e) ↦ retry_loop f (suc retries) left
  ]

  unfoldable pub retry : (ℕ → Attempt E T) → ℕ → Result E T × ℕ
  unfolding retry_loop
  retry f max_retries = retry_loop f 0 max_retries
