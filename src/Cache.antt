-- ===== src/Cache.antt =====
-- internal/service/stream_chunk_cache.go: the LRU cache of decrypted chunks. The mutex makes every
-- operation atomic, so each is a function on the state. The map is the list of its keys, and a list
-- element is known by the key of its entry, which never changes; a chunk's bytes are a list.
pub mod Keys
pub mod Coherent
pub mod Trim
pub mod Elements
pub mod Invariant
pub mod Eviction
pub mod Lookup
mod Examples
use pentaract.Prelude.{
  ℕ, zero, suc, ◌+◌, ◌-◌, ◌*◌, Bool, true, false, ◌&&◌, ◌||◌, Option, none, some, List, [], ◌∷◌,
  ◌==◌, ltb, if◌then◌else◌, length, map,
}
use pentaract.Cache.Keys.{Key, key_eq, has_key, delete_key}

abbrev pub default_max_entries : ℕ
default_max_entries = 6

abbrev pub default_max_bytes : ℕ
default_max_bytes = 96 * 1024 * 1024

pub record Entry : Type 0 where
  pub key : Key
  pub payload : List ℕ
  pub size : ℕ

pub record Cache : Type 0 where
  pub entries : List Key
  pub order : List Entry
  pub total_bytes : ℕ
  pub max_bytes : ℕ
  pub max_entries : ℕ

-- The limits are not negative; 0 asks for the default.
unfoldable pub new : ℕ → ℕ → Cache
new max_entries max_bytes = record {
  entries = [];
  order = [];
  total_bytes = 0;
  max_bytes = if max_bytes == 0 then default_max_bytes else max_bytes;
  max_entries = if max_entries == 0 then default_max_entries else max_entries;
}

-- The list element of a key, for a key of the map.
unfoldable pub find : Key → List Entry → Option Entry
find k [] = none
find k (e ∷ es) = if key_eq e.key k then some e else find k es

-- The list without the element of a key.
unfoldable pub remove : Key → List Entry → List Entry
remove k [] = []
remove k (e ∷ es) = let rest = remove k es in if key_eq e.key k then es else e ∷ rest

-- `MoveToFront` of the element of an entry.
pub move_to_front : Entry → List Entry → List Entry
unfolding remove
move_to_front e order = e ∷ remove e.key order

pub get_element : Key → Cache → Option Entry → Option (List ℕ) × Cache
unfolding move_to_front
get_element key c none = (none, c)
get_element key c (some entry) =
    (some entry.payload, record c { order = move_to_front entry c.order })

unfoldable pub get : Key → Cache → Option (List ℕ) × Cache
unfolding get_element find has_key
get key c = if has_key key c.entries then get_element key c (find key c.order) else (none, c)

-- The list without its last element, and that element: `Back` and `Remove`.
unfoldable pub unsnoc {ℓ} : {A : Type ℓ} → List A → Option (List A × A)
unsnoc [] = none
unsnoc (x ∷ xs) = elim (unsnoc xs) [ none ↦ some ([], x) | some (ys, y) ↦ some (x ∷ ys, y) ]

pub over_limit : Cache → Bool
over_limit c = ltb c.max_entries (length c.entries) || ltb c.max_bytes c.total_bytes

pub evict : Cache → List Entry → Entry → Cache
unfolding delete_key
evict c front entry = record c {
  entries = delete_key entry.key c.entries;
  order = front;
  total_bytes = c.total_bytes - entry.size;
}

-- The loop of `trimLocked` on fuel. One round takes one element off the list, so as much fuel as
-- there are elements runs it to its end: without elements it returns.
pub trim_loop : ℕ → Cache → Cache
trim_loop zero c = c
trim_loop (suc fuel) c = elim (over_limit c) [
  | false ↦ c
  | true ↦ elim (unsnoc c.order) [
    | none ↦ c
    | some (front, entry) ↦ trim_loop fuel (evict c front entry)
  ]
]

pub trim_locked : Cache → Cache
unfolding trim_loop over_limit evict unsnoc
trim_locked c = trim_loop (length c.order) c

-- The entry that `set` leaves at the front for a key that the map has.
pub replace_element : List ℕ → Cache → Option Entry → Cache
unfolding move_to_front
replace_element bytes c none = c
replace_element bytes c (some old) =
    let entry : Entry = record old { payload = bytes; size = length bytes } in
    record c {
      total_bytes = c.total_bytes - old.size + length bytes;
      order = move_to_front entry c.order;
    }

pub push_front : Key → List ℕ → Cache → Cache
push_front key bytes c = record c {
  entries = key ∷ c.entries;
  order = record { key = key; payload = bytes; size = length bytes } ∷ c.order;
  total_bytes = c.total_bytes + length bytes;
}

-- The state in which `set` calls `trimLocked`.
pub place : Key → List ℕ → Cache → Cache
unfolding replace_element push_front find has_key
place key bytes c =
    if has_key key c.entries
    then replace_element bytes c (find key c.order)
    else push_front key bytes c

unfoldable pub set : Key → List ℕ → Cache → Cache
unfolding place trim_locked
set key bytes c =
    if length bytes == 0 || ltb c.max_bytes (length bytes)
    then c
    else trim_locked (place key bytes c)
