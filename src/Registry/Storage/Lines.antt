-- ===== src/Registry/Storage/Lines.antt =====
-- What deserializeInstance makes of what serializeInstance wrote.
use my_mprpc.Prelude.{
  ℕ, ◌+◌, ◌%◌, ◌^◌, ◌<◌, ◌≡◌, ◌≢◌, refl, sym, ap, ◌∙◌, Bool, true, false, none, some, List, [], ◌∷◌,
  ◌++◌, append_assoc, append-nil, Bytes, codes, ◌==◌, if◌then◌else◌, All, arith, bytes_eq,
}
use my_mprpc.Prelude.Int.{ℤ, pos, negsuc, InInt32}
use my_mprpc.Prelude.Map.{Map, find, put_new}
use my_mprpc.Prelude.Decimal.{to_string, to_string-IsDigit, IsDigit}
use my_mprpc.Prelude.Parse.{stoi, to_string_int, stoi-to_string_int, stoull-to_string}
use my_mprpc.Registry.Instance.{ServiceInstance, default_instance}
use my_mprpc.Registry.Storage.{
  end_line, serialize_metadata, serialize_instance, lines, lines_from, split_key, put_entry,
  read_metadata, to_uint16, read_heartbeat, read_health, read_weight, read_port, read_host,
  read_name, deserialize_instance,
}

-- Without a newline.
abbrev pub IsLine : Bytes → Type 0
IsLine s = All (λ c. c ≢ 10) s

lines_from-end_line :
    (line before rest : Bytes)
    → IsLine line
    → lines_from before (end_line line rest) ≡ (before ++ line) ∷ lines rest
unfolding lines lines_from
lines_from-end_line [] [] rest h = refl
lines_from-end_line [] (b ∷ before) rest h =
    ap (λ l. l ∷ lines_from [] rest) (sym (append-nil (b ∷ before)))
lines_from-end_line (c ∷ line) before rest (d, h) =
    let inside : (c == 10) ≡ false = ground arith in
    rw inside (
      lines_from-end_line line (before ++ c ∷ []) rest h
      ∙ ap (λ l. l ∷ lines_from [] rest) (append_assoc before (c ∷ []) line))

lines-end_line : (line rest : Bytes) → IsLine line → lines (end_line line rest) ≡ line ∷ lines rest
unfolding lines
lines-end_line line rest h = lines_from-end_line line [] rest h

-- Digits and a sign are a line.
digits-IsLine : (s : Bytes) → All IsDigit s → IsLine s
digits-IsLine [] d = tt
digits-IsLine (c ∷ s) (d, ds) = (λ e. omega (arith, e), digits-IsLine s ds)

to_string-IsLine : (n : ℕ) → IsLine (to_string n)
to_string-IsLine n = digits-IsLine (to_string n) (to_string-IsDigit n)

to_string_int-IsLine : (n : ℤ) → IsLine (to_string_int n)
unfolding to_string_int
to_string_int-IsLine (pos n) = to_string-IsLine n
to_string_int-IsLine (negsuc n) = (λ e. omega (arith, e), to_string-IsLine (n + 1))

-- A key has no newline and no =.
abbrev pub IsKey : Bytes → Type 0
IsKey key = All (λ c. (c ≢ 10) × (c ≢ b'=')) key

split_key-entry :
    (key value : Bytes) → IsKey key → split_key (key ++ b'=' ∷ value) ≡ some (key, value)
unfolding split_key
split_key-entry [] value h = refl
split_key-entry (c ∷ key) value ((n, d), h) =
    let inside : (c == b'=') ≡ false = ground arith in rw (inside, split_key-entry key value h) refl

entry-IsLine : (key value : Bytes) → IsKey key → IsLine value → IsLine (key ++ b'=' ∷ value)
entry-IsLine [] value h v = (λ e. omega (arith, e), v)
entry-IsLine (c ∷ key) value ((n, d), h) v = (n, entry-IsLine key value h v)

-- The entries behind `before` have keys of their own, and keys and values that are lines.
abbrev pub IsMetadata : Map Bytes Bytes → Map Bytes Bytes → Type 0
IsMetadata before [] = Unit {0}
IsMetadata before ((key, value) ∷ more) =
    IsKey key
    × IsLine value
    × (find key before ≡ none)
    × IsMetadata (before ++ (key, value) ∷ []) more

read_metadata-serialize_metadata :
    (more before : Map Bytes Bytes)
    → IsMetadata before more
    → read_metadata (lines (serialize_metadata more)) before ≡ before ++ more
unfolding serialize_metadata read_metadata
read_metadata-serialize_metadata [] before h = unfold lines lines_from in sym (append-nil before)
read_metadata-serialize_metadata ((key, value) ∷ more) before (k, v, new, h) =
    ap (λ l. read_metadata l before)
      (lines-end_line (key ++ b'=' ∷ value) (serialize_metadata more) (entry-IsLine key value k v))
    ∙ ap (λ e. read_metadata (lines (serialize_metadata more)) (put_entry e before))
        (split_key-entry key value k)
    ∙ ap (read_metadata (lines (serialize_metadata more))) (put_new key value before new)
    ∙ read_metadata-serialize_metadata more (before ++ (key, value) ∷ []) h
    ∙ append_assoc before ((key, value) ∷ []) more

abbrev health : Bool → Bytes
health b = if b then codes "1" else codes "0"

health-IsLine : (b : Bool) → IsLine (health b)
health-IsLine true = (λ e. omega (arith, e), tt)
health-IsLine false = (λ e. omega (arith, e), tt)

health_read : (b : Bool) → bytes_eq.beq (health b) (codes "1") ≡ b
health_read true = refl
health_read false = refl

fields : ServiceInstance → List Bytes
fields s =
    s.service_name
    ∷ s.host
    ∷ to_string s.port
    ∷ to_string_int s.weight
    ∷ health s.is_healthy
    ∷ to_string s.last_heartbeat
    ∷ lines (serialize_metadata s.metadata)

lines-serialize_instance :
    (s : ServiceInstance)
    → IsLine s.service_name
    → IsLine s.host
    → lines (serialize_instance s) ≡ fields s
unfolding serialize_instance fields
lines-serialize_instance s n h =
    let m = serialize_metadata s.metadata in
    let l6 = end_line (to_string s.last_heartbeat) m in
    let l5 = end_line (health s.is_healthy) l6 in
    let l4 = end_line (to_string_int s.weight) l5 in
    let l3 = end_line (to_string s.port) l4 in
    lines-end_line s.service_name (end_line s.host l3) n
    ∙ ap (λ l. s.service_name ∷ l)
        (lines-end_line s.host l3 h
          ∙ ap (λ l. s.host ∷ l)
              (lines-end_line (to_string s.port) l4 (to_string-IsLine s.port)
                ∙ ap (λ l. to_string s.port ∷ l)
                    (lines-end_line (to_string_int s.weight) l5 (to_string_int-IsLine s.weight)
                      ∙ ap (λ l. to_string_int s.weight ∷ l)
                          (lines-end_line (health s.is_healthy) l6 (health-IsLine s.is_healthy)
                            ∙ ap (λ l. health s.is_healthy ∷ l)
                                (lines-end_line (to_string s.last_heartbeat) m
                                  (to_string-IsLine s.last_heartbeat))))))

stoi-port : (n : ℕ) → n < 65536 → stoi (to_string n) ≡ some (pos n)
stoi-port n h = unfold to_string_int in stoi-to_string_int (pos n) (omega arith)

-- An instance whose name and host are lines, whose numbers have their types, and whose metadata has
-- keys without = and each key once, all without newlines, is read back as it was written.
pub deserialize_instance-serialize_instance :
    (s : ServiceInstance)
    → IsLine s.service_name
    → IsLine s.host
    → s.port < 65536
    → InInt32 s.weight
    → s.last_heartbeat < 2 ^ 64
    → IsMetadata [] s.metadata
    → deserialize_instance (serialize_instance s) ≡ some s
unfolding deserialize_instance fields read_name read_host read_port read_weight read_health
    read_heartbeat default_instance to_uint16
deserialize_instance-serialize_instance s n h p w t m =
    let small : s.port % 65536 ≡ s.port = omega arith in
    ap (λ l. read_name l default_instance) (lines-serialize_instance s n h)
    ∙ rw
        (
          stoi-port s.port p,
          stoi-to_string_int s.weight w,
          stoull-to_string s.last_heartbeat t,
          health_read s.is_healthy,
          read_metadata-serialize_metadata s.metadata [] m,
          small,
        )
        refl
