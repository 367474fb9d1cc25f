-- ===== src/Tests/Wire.antt =====
-- A wire that keeps its promises: JSON in a form of its own, each value with its size before it.
use Prim.Native.Char.{code}
use real_time_ai_chat_backen.Base.{
  ℕ, zero, suc, ◌+◌, ◌≡◌, ◌≤◌, refl, ap, ◌∙◌, String, true, false, some, none, arith, ◌==◌, count,
  if◌then◌else◌,
}
use real_time_ai_chat_backen.WebSocket.Protocol.{
  Json, null, boolean, number, text, array, object, Items, nil, cons, Fields, end, field,
}
use real_time_ai_chat_backen.WebSocket.Protocol.Wire.{Wire, IsFaithful}
use real_time_ai_chat_backen.Tests.Platform.{
  toy, toy-IsLawful, unary, count-unary, pack, unpack, unpack-pack,
}

abbrev mutual
  size : Json → ℕ
  size (array items) = suc (size_of_items items)
  size (object fields) = suc (size_of_fields fields)
  size _ = 1

  size_of_items : Items → ℕ
  size_of_items nil = 1
  size_of_items (cons v items) = suc (size v + size_of_items items)

  size_of_fields : Fields → ℕ
  size_of_fields end = 1
  size_of_fields (field key v fields) = suc (size v + size_of_fields fields)

abbrev mutual
  print : Json → String → String
  print null rest = String.◌∷◌ "n" rest
  print (boolean true) rest = String.◌∷◌ "t" rest
  print (boolean false) rest = String.◌∷◌ "f" rest
  print number rest = String.◌∷◌ "d" rest
  print (text s) rest = String.◌∷◌ "s" (pack s rest)
  print (array items) rest = String.◌∷◌ "a" (print_items items rest)
  print (object fields) rest = String.◌∷◌ "o" (print_fields fields rest)

  print_items : Items → String → String
  print_items nil rest = String.◌∷◌ "." rest
  print_items (cons v items) rest = String.◌∷◌ "," (print v (print_items items rest))

  print_fields : Fields → String → String
  print_fields end rest = String.◌∷◌ "." rest
  print_fields (field key v fields) rest =
      String.◌∷◌ "," (pack key (print v (print_fields fields rest)))

abbrev mutual
  read : ℕ → String → Json × String
  read zero s = (null, s)
  read (suc n) String.[] = (null, "")
  read (suc n) (String.◌∷◌ c s) =
      let (t, r) = unpack s in
      let (items, r') = read_items n s in
      let (fields, r'') = read_fields n s in
      if code c == 110
      then (null, s)
      else if code c == 116
      then (boolean true, s)
      else if code c == 102
      then (boolean false, s)
      else if code c == 100
      then (number, s)
      else if code c == 115
      then (text t, r)
      else if code c == 97
      then (array items, r')
      else (object fields, r'')

  read_items : ℕ → String → Items × String
  read_items zero s = (nil, s)
  read_items (suc n) String.[] = (nil, "")
  read_items (suc n) (String.◌∷◌ c s) =
      let (v, r) = read n s in
      let (items, r') = read_items n r in if code c == 46 then (nil, s) else (cons v items, r')

  read_fields : ℕ → String → Fields × String
  read_fields zero s = (end, s)
  read_fields (suc n) String.[] = (end, "")
  read_fields (suc n) (String.◌∷◌ c s) =
      let (key, r) = unpack s in
      let (v, r') = read n r in
      let (fields, r'') = read_fields n r' in
      if code c == 46 then (end, s) else (field key v fields, r'')

mutual
  read-print : (v : Json) (n : ℕ) (rest : String) → size v ≤ n → read n (print v rest) ≡ (v, rest)
  read-print null zero rest h = absurd (omega arith)
  read-print null (suc n) rest h = refl
  read-print (boolean b) zero rest h = absurd (omega arith)
  read-print (boolean true) (suc n) rest h = refl
  read-print (boolean false) (suc n) rest h = refl
  read-print number zero rest h = absurd (omega arith)
  read-print number (suc n) rest h = refl
  read-print (text s) zero rest h = absurd (omega arith)
  read-print (text s) (suc n) rest h = rw (unpack-pack s rest) refl
  read-print (array items) zero rest h = absurd (omega arith)
  read-print (array items) (suc n) rest h = rw (read-print_items items n rest (omega arith)) refl
  read-print (object fields) zero rest h = absurd (omega arith)
  read-print (object fields) (suc n) rest h =
      rw (read-print_fields fields n rest (omega arith)) refl

  read-print_items :
      (items : Items) (n : ℕ) (rest : String)
      → size_of_items items ≤ n
      → read_items n (print_items items rest) ≡ (items, rest)
  read-print_items nil zero rest h = absurd (omega arith)
  read-print_items nil (suc n) rest h = refl
  read-print_items (cons v items) zero rest h = absurd (omega arith)
  read-print_items (cons v items) (suc n) rest h =
      rw
        (
          read-print v n (print_items items rest) (omega arith),
          read-print_items items n rest (omega arith),
        )
        refl

  read-print_fields :
      (fields : Fields) (n : ℕ) (rest : String)
      → size_of_fields fields ≤ n
      → read_fields n (print_fields fields rest) ≡ (fields, rest)
  read-print_fields end zero rest h = absurd (omega arith)
  read-print_fields end (suc n) rest h = refl
  read-print_fields (field key v fields) zero rest h = absurd (omega arith)
  read-print_fields (field key v fields) (suc n) rest h =
      rw
        (
          unpack-pack key (print v (print_fields fields rest)),
          read-print v n (print_fields fields rest) (omega arith),
          read-print_fields fields n rest (omega arith),
        )
        refl

abbrev sized : String × String → Json
sized (fuel, s) = (read (count fuel) s).0

abbrev loads : String → Json
loads s = sized (unpack s)

abbrev dumps : Json → String
dumps v = pack (unary (size v)) (print v "")

loads-dumps : (v : Json) → loads (dumps v) ≡ v
loads-dumps v =
    ap sized (unpack-pack (unary (size v)) (print v ""))
    ∙ ap (λ n. (read n (print v "")).0) (count-unary (size v))
    ∙ ap (λ (p : Json × String). p.0) (read-print v (size v) "" (omega arith))

abbrev pub toy_wire : Wire
toy_wire = record {
  utf8_decode = λ bytes. none;
  json_loads = λ s. some (loads s);
  json_dumps = dumps;
  parse_uuid = toy.uuid_parse;
  isoformat = unary;
  parse_datetime = λ s. some (count s);
}

pub toy_wire-IsFaithful : IsFaithful toy toy_wire
toy_wire-IsFaithful = record {
  loads-dumps = λ v. ap some (loads-dumps v);
  parse-uuid_str = toy-IsLawful.parse-str;
  parse-isoformat = λ t. ap some (count-unary t);
}
