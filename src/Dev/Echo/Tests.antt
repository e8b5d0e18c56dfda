-- ===== src/Dev/Echo/Tests.antt =====
-- The theorem on the echo server, with a backend that accepts every request: a connection, five bytes that
-- come and go back, and the end of the connection.
use iel.Base.{refl, some, none, true, false, [], ◌∷◌, arith}
use iel.Iou.{value}
use iel.Iou.Files.{inval}
use iel.Dev.{Env, holding}
use iel.Dev.Echo.{TcpEcho, echo_callback}
use iel.Dev.Echo.Steps.{listening}
use iel.Dev.Echo.Serve.{accept_request}
use iel.Dev.Echo.Start.{Begun, start_server, start_server-Begun}
use iel.Dev.Echo.Run.{serve, Serves, server-Serves}

abbrev granting : Env
granting = record {
  refuses = λ calls. none;
  grants = λ calls. true;
  registers = λ calls. some inval;
}

abbrev server : TcpEcho
server = record { sock = record { raw = 3; reg = inval }; accepting = true }

server-Serves_example : Serves false [] [] (
    serve granting 2
      (value 7 ∷ value 5 ∷ value 5 ∷ value 0 ∷ [])
      server
      (holding (listening 3) (accept_request ∷ []) [] false [] []))
server-Serves_example =
    server-Serves false [] [] granting 0 (value 7) (value 5 ∷ value 5 ∷ value 0 ∷ []) server [] refl
      (omega arith, λ e. omega (arith, e))

start_server-Begun_example : Begun granting 0 96 false [] [] (some 3) (
    start_server granting
      (echo_callback granting 1)
      96
      (some 3)
      true
      true
      (holding [] [] [] false [] []))
start_server-Begun_example = start_server-Begun granting 0 96 false [] [] (some 3) true true []
