-- ===== src/Tests/Env.antt =====
-- The reader of src/shared/env on concrete environments.
use modular_hx_fastapi.Common.{
  List, Option, Text, Value, [], codes, false, if◌then◌else◌, is_decimal, nat, refl, same, some,
  string, string_of, to_decimal, true, ◌∷◌, ◌≡◌,
}
use modular_hx_fastapi.Env.{
  Reader, default_value, empty_reader, enumeration, environment, integer, is_member, or_text, read,
  read_int, read_secret, record_var, resolve, text_value, valid_key,
}
use modular_hx_fastapi.Env.Soundness.{IsInt, enumeration-IsChoice, read_int-IsInt}
use modular_hx_fastapi.Env.Invariant.{
  IsReader, Reached, Reached-IsReader, after_int, after_secret, started,
}

abbrev port_key : Text
port_key = codes "PORT"

abbrev mode_key : Text
mode_key = codes "MODE"

-- An environment with a port only.
abbrev ports : Text → Value
ports key = if same key port_key then string (codes "8080") else Value.undefined

abbrev after_port : Reader
after_port = record {
  seen = port_key ∷ [];
  problems = [];
  resolved =
      record { key = port_key; value = codes "8080"; source = environment; secret = false } ∷ [];
}

port_read :
    read_int ports port_key (nat 3000) (nat 1) (nat 65535) empty_reader ≡ (nat 8080, after_port)
unfolding read_int resolve read valid_key integer is_decimal string_of to_decimal record_var
    empty_reader same
port_read = refl

read_int-IsInt_example :
    IsInt ports port_key (nat 3000) (nat 1) (nat 65535) empty_reader (nat 8080) after_port
read_int-IsInt_example =
    read_int-IsInt ports port_key (nat 3000) (nat 1) (nat 65535) empty_reader after_port (nat 8080)
      port_read refl

abbrev modes : List Text
modes = codes "dev" ∷ codes "prod" ∷ []

abbrev after_mode : Reader
after_mode = record {
  seen = mode_key ∷ [];
  problems = [];
  resolved =
      record { key = mode_key; value = codes "dev"; source = default_value; secret = false } ∷ [];
}

mode_read : enumeration ports mode_key (codes "dev") modes empty_reader ≡ (codes "dev", after_mode)
unfolding enumeration resolve read valid_key record_var empty_reader same
mode_read = refl

enumeration-IsChoice_example :
    (is_member (codes "dev") modes ≡ true)
    × ((o : Option Text) × (text_value (ports mode_key) ≡ some o)
        × (or_text o (codes "dev") ≡ codes "dev"))
enumeration-IsChoice_example =
    enumeration-IsChoice ports mode_key (codes "dev") modes empty_reader after_mode (codes "dev")
      mode_read refl

-- A secret is read, then the port.
abbrev two_reads : Reader
two_reads =
    (read_int ports port_key (nat 3000) (nat 1) (nat 65535)
      (read_secret ports mode_key empty_reader).1).1

two_reads-Reached : Reached ports (port_key ∷ []) two_reads
two_reads-Reached =
    after_int port_key (nat 3000) (nat 1) (nat 65535) (after_secret mode_key started)

Reached-IsReader_example : IsReader (port_key ∷ []) two_reads
Reached-IsReader_example = Reached-IsReader ports (port_key ∷ []) two_reads two_reads-Reached
