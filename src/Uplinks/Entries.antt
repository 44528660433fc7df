-- ===== src/Uplinks/Entries.antt =====
-- The state of `uplinks`: addresses and their names, and the entries under the names.
use vitex.Common.{
  ℕ, zero, suc, ◌+◌, ◌/◌, ◌%◌, List, [], ◌∷◌, ◌++◌, Bool, true, false, ◌==◌, ◌&&◌, if◌then◌else◌,
  Option, none, some,
}

-- What `get_hostname` and `get_ip_port` say of an address.
pub record SocketAddress : Type 0 where
  pub hostname : Option (List ℕ)
  pub ip_port : Option ℕ

-- `to_string` of a 16-bit number: five digits are enough.
unfoldable pub to_string : ℕ → ℕ → List ℕ → List ℕ
to_string zero n tail = tail
to_string (suc fuel) n tail =
    let more = to_string fuel (n / 10) ((48 + n % 10) ∷ tail) in
    if n / 10 == 0 then (48 + n % 10) ∷ tail else more

unfoldable pub get_address_identification : SocketAddress → List ℕ
unfolding to_string
get_address_identification address =
    (elim address.hostname [ none ↦ [] | some h ↦ h ])
    ++ elim address.ip_port [ none ↦ [] | some p ↦ 58 ∷ to_string 5 p [] ]

abbrev pub same : List ℕ → List ℕ → Bool
same [] [] = true
same [] (y ∷ ys) = false
same (x ∷ xs) [] = false
same (x ∷ xs) (y ∷ ys) = (x == y) && same xs ys

-- `connection_queue`. The set of streams is a list without repetitions, in the set's order.
pub record Pool : Type 0 where
  pub requests : List ℕ
  pub streams : List ℕ
  pub duplicates : ℕ

pub record Uplinks : Type 0 where
  pub connections : List (List ℕ × Pool)
  pub max_duplicates : ℕ  -- size_t

-- The entries of `connections`.
unfoldable pub find : List ℕ → List (List ℕ × Pool) → Option Pool
find name [] = none
find name ((n, pool) ∷ cs) = if same n name then some pool else find name cs

unfoldable pub put : List ℕ → Pool → List (List ℕ × Pool) → List (List ℕ × Pool)
put name pool [] = (name, pool) ∷ []
put name pool ((n, old) ∷ cs) =
    let rest = put name pool cs in if same n name then (n, pool) ∷ cs else (n, old) ∷ rest

unfoldable pub erase : List ℕ → List (List ℕ × Pool) → List (List ℕ × Pool)
erase name [] = []
erase name ((n, old) ∷ cs) = let rest = erase name cs in if same n name then cs else (n, old) ∷ rest

-- The set of streams.
unfoldable pub is_in : ℕ → List ℕ → Bool
is_in s [] = false
is_in s (t ∷ ts) = if t == s then true else is_in s ts

unfoldable pub insert : ℕ → List ℕ → List ℕ
unfolding is_in
insert s ts = if is_in s ts then ts else s ∷ ts

unfoldable pub remove : ℕ → List ℕ → List ℕ
remove s [] = []
remove s (t ∷ ts) = let rest = remove s ts in if t == s then ts else t ∷ rest
