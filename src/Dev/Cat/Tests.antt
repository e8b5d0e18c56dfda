-- ===== src/Dev/Cat/Tests.antt =====
-- The theorems on the copying program, with a system that grants everything.
use iel.Base.{some, none, true}
use iel.Dev.{Env}

abbrev granting : Env
granting = record { refuses = λ calls. none; grants = λ calls. true; registers = λ calls. some 0 }
