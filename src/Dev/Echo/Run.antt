-- ===== src/Dev/Echo/Run.antt =====
-- Runs of the echo server, one completion after the other.
use iel.Base.{ℕ, suc, ◌≡◌, Option, none, some, Bool, true, false, List, [], ◌∷◌}
use iel.Iou.{Res}
use iel.Dev.{Call, Note, holding, Env, World}
use iel.Dev.Echo.{TcpEcho, serve_one}
use iel.Dev.Echo.Steps.{connected, listening, asked, Served, gone, goes_on, next_read, next_write}
use iel.Dev.Echo.Serve.{
  accept_request, Opens, count, accept_request-Served, read-Served, write-Served,
}

pub serve : Env → ℕ → List Res → TcpEcho → World → Option (TcpEcho × World)
serve env depth [] pcb w = some (pcb, w)
serve env depth (r ∷ rs) pcb w = elim (serve_one env depth r pcb w) [
  | none ↦ none
  | some (pcb', w') ↦ serve env depth rs pcb' w'
]

module _ (stop : Bool) (bytes : List ℕ) (notes : List Note) where
  -- The server waits for bytes, or for its bytes to be written, with its connection and both
  -- blocks; or it holds nothing.
  pub data Serving : TcpEcho → World → Type 0 where
    reading :
        (pcb : TcpEcho) (calls : List Call)
        → pcb.accepting ≡ false
        → Serving pcb (
            holding
              (connected pcb.sock.raw)
              (next_read ∷ [])
              (asked pcb.sock next_read 4096 calls)
              stop
              bytes
              notes)
    writing :
        (pcb : TcpEcho) (n : ℕ) (calls : List Call)
        → pcb.accepting ≡ false
        → Serving pcb (
            holding
              (connected pcb.sock.raw)
              (next_write ∷ [])
              (asked pcb.sock next_write n calls)
              stop
              bytes
              notes)
    ended : (pcb : TcpEcho) (calls : List Call) → Serving pcb (holding [] [] calls stop bytes notes)

  pub data Serves : Option (TcpEcho × World) → Type 0 where
    serves : (pcb : TcpEcho) (w : World) → Serving pcb w → Serves (some (pcb, w))

  Serves-read : {r : Option (TcpEcho × World)} → Served stop bytes notes next_read 4096 r → Serves r
  Serves-read (gone pcb calls) = serves pcb _ (ended pcb calls)
  Serves-read (goes_on pcb calls w) = serves pcb _ (reading pcb calls w)

  Serves-write :
      (n : ℕ) {r : Option (TcpEcho × World)} → Served stop bytes notes next_write n r → Serves r
  Serves-write n (gone pcb calls) = serves pcb _ (ended pcb calls)
  Serves-write n (goes_on pcb calls w) = serves pcb _ (writing pcb n calls w)

  module _ (env : Env) (depth : ℕ) where
    serve_one-Serves :
        (r : Res) (pcb : TcpEcho) (w : World)
        → Serving pcb w
        → Serves (serve_one env (suc (suc depth)) r pcb w)
    unfolding serve_one
    serve_one-Serves r pcb _ (reading _ calls w) =
        Serves-write (count r) (read-Served env depth pcb _ stop bytes notes r w)
    serve_one-Serves r pcb _ (writing _ n calls w) =
        Serves-read (write-Served env depth pcb _ stop bytes notes r w)
    serve_one-Serves r pcb _ (ended _ calls) = serves pcb _ (ended pcb calls)

    serve-Serves :
        (rs : List Res) {o : Option (TcpEcho × World)}
        → Serves o
        → Serves (elim o [ none ↦ none | some (pcb, w) ↦ serve env (suc (suc depth)) rs pcb w ])
    unfolding serve
    serve-Serves [] (serves pcb w s) = serves pcb w s
    serve-Serves (r ∷ rs) (serves pcb w s) = serve-Serves rs (serve_one-Serves r pcb w s)

    -- From the listening socket on, whatever the completions are and whatever the backend answers: no
    -- callback of the server faults, and the server waits for one request and holds its connection
    -- and both blocks, or it waits for none and has given all of them and the listening socket back,
    -- once each. Of the first completion it is asked that a new socket is not 0 and not the
    -- listening one.
    pub server-Serves :
        (first : Res) (rs : List Res) (pcb : TcpEcho) (calls : List Call)
        → pcb.accepting ≡ true
        → Opens pcb.sock.raw first
        → Serves (
            serve env
              (suc (suc depth))
              (first ∷ rs)
              pcb
              (holding (listening pcb.sock.raw) (accept_request ∷ []) calls stop bytes notes))
    unfolding serve
    server-Serves first rs pcb calls a new =
        serve-Serves rs
          (Serves-read (accept_request-Served env depth pcb calls stop bytes notes first a new))
