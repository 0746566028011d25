-- ===== src/Control/Exchange.antt =====
-- crates/sismatic-core/src/devices/controller.rs. A transport is what it will do: whether it takes a
-- write, and what its reads give, one after another, until nothing more comes and the timeout ends
-- the exchange. The reads that come are finitely many, so the loop is recursion on them; a gap that
-- is longer than the timeout is an entry of its own, and what follows it stays for a later exchange.
use sismatic.Common.{ℕ, String, Option, none, some, List, [], ◌∷◌, ◌++◌, Result, ok, err, as_bytes}
use sismatic.Protocol.Values.{Value}
use sismatic.Protocol.Replies.{need_more, done, Instruction, SisError, in_reply, valid_prefix}

-- crates/sismatic-core/src/devices/transport.rs
pub data TransportError : Type 0 where
  io : String → TransportError

-- What a read gives: bytes, none of them where the channel is closed; an error; or nothing in time.
pub data Read : Type 0 where
  bytes : List ℕ → Read
  failed : TransportError → Read
  quiet : Read

pub record Transport : Type 0 where
  pub refuses : Option TransportError
  pub reads : List Read
  pub written : List (List ℕ)

pub data ControllerError : Type 0 where
  timeout : String → ℕ → ControllerError
  rejected : String → SisError → ControllerError
  connection_closed : String → ControllerError
  transport : String → TransportError → ControllerError

pub record Controller : Type 0 where
  pub transport : Transport
  pub exchange_timeout : ℕ

abbrev pub Exchanged : Type 0
Exchanged = Result Value ControllerError × List Read

-- What the text so far says: an error line first, or else what the instruction makes of it.
unfoldable pub judge : Instruction → List ℕ → Option (Result Value ControllerError)
unfolding in_reply
judge instruction reply = elim (in_reply reply) [
  | some error ↦ some (err (rejected instruction.name error))
  | none ↦ elim (instruction.parse_step reply) [ done value ↦ some (ok value) | need_more ↦ none ]
]

-- The loop of `exchange`: the bytes so far, and the reads to come.
unfoldable pub read_loop : Instruction → ℕ → List ℕ → List Read → Exchanged
unfolding judge valid_prefix
read_loop instruction wait acc [] = (err (timeout instruction.name wait), [])
read_loop instruction wait acc (quiet ∷ rest) = (err (timeout instruction.name wait), rest)
read_loop instruction wait acc (failed e ∷ rest) = (err (transport instruction.name e), rest)
read_loop instruction wait acc (bytes [] ∷ rest) = (err (connection_closed instruction.name), rest)
read_loop instruction wait acc (bytes (b ∷ more) ∷ rest) =
    let all = acc ++ b ∷ more in
    elim (judge instruction (valid_prefix all)) [
      | some result ↦ (result, rest)
      | none ↦ read_loop instruction wait all rest
    ]

-- `Controller::run`: `exchange` under the timeout.
unfoldable pub run : Instruction → Controller → Result Value ControllerError × Controller
unfolding read_loop as_bytes
run instruction c = elim c.transport.refuses [
  | some e ↦ (err (transport instruction.name e), c)
  | none ↦
      let exchanged = read_loop instruction c.exchange_timeout [] c.transport.reads in
      (
        exchanged.0,
        record c {
          transport = record c.transport {
            reads = exchanged.1;
            written = as_bytes instruction.payload ∷ c.transport.written;
          };
        },
      )
]
