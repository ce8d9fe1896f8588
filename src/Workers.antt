-- ===== src/Workers.antt =====
-- internal/repository/storage_workers.go behind internal/service/storage_workers.go: the tables
-- storage_workers and storage_workers_usages. Times are milliseconds, tokens and names are numbers
-- and byte lists; a statement that fails changes nothing and is not modelled.
pub mod Count
pub mod Rate
pub mod Rows
mod Examples
use pentaract.Prelude.{
  ℕ, zero, suc, ◌+◌, ◌-◌, Bool, true, false, ◌&&◌, ◌||◌, not, Option, none, some, List, [], ◌∷◌,
  ◌++◌, map, ◌==◌, if◌then◌else◌, leb, ltb, take, bytes_eq,
}
use pentaract.OrderedJobs.Spec.{Outcome, ok, err}

-- domain.StorageWorker; a worker with no storage serves them all.
pub record Worker : Type 0 where
  pub id : ℕ
  pub name : List ℕ
  pub user : ℕ
  pub token : ℕ
  pub storage : Option ℕ

pub record Usage : Type 0 where
  pub worker : ℕ
  pub created_at : ℕ

pub data Error : Type 0 where
  bad_request already_exists not_found : Error

-- storageWorkerUsageWindow.
abbrev pub usage_window : ℕ
usage_window = 60000

-- `storage_id = $1 OR storage_id IS NULL`.
unfoldable pub serves : ℕ → Worker → Bool
serves storage w = elim w.storage [ none ↦ true | some s ↦ s == storage ]

-- The usages of a worker that are not older than a time.
unfoldable pub used : ℕ → ℕ → List Usage → ℕ
used worker since [] = 0
used worker since (u ∷ us) =
    if u.worker == worker && leb since u.created_at
    then suc (used worker since us)
    else used worker since us

-- `available_workers`: WHERE, HAVING and ORDER BY, by insertion.
unfoldable pub before : ℕ → List Usage → Worker → Worker → Bool
unfolding used
before since us a b =
    ltb (used a.id since us) (used b.id since us)
    || (used a.id since us == used b.id since us && leb a.id b.id)

unfoldable pub insert_worker : ℕ → List Usage → Worker → List Worker → List Worker
unfolding before
insert_worker since us w [] = w ∷ []
insert_worker since us w (x ∷ xs) =
    let rest = insert_worker since us w xs in if before since us w x then w ∷ x ∷ xs else x ∷ rest

unfoldable pub available_workers : ℕ → ℕ → ℕ → List Usage → List Worker → List Worker
unfolding insert_worker serves used
available_workers storage rate_limit since us [] = []
available_workers storage rate_limit since us (w ∷ ws) =
    let rest = available_workers storage rate_limit since us ws in
    if serves storage w && ltb (used w.id since us) rate_limit
    then insert_worker since us w rest
    else rest

-- One row for each free slot.
unfoldable pub slots : ℕ → Worker → List Worker
slots zero w = []
slots (suc n) w = w ∷ slots n w

unfoldable pub expanded : ℕ → ℕ → List Usage → List Worker → List Worker
unfolding slots used
expanded rate_limit since us [] = []
expanded rate_limit since us (w ∷ ws) =
    slots (rate_limit - used w.id since us) w ++ expanded rate_limit since us ws

pub record Tables : Type 0 where
  pub workers : List Worker
  pub usages : List Usage

unfoldable pub record_usages : ℕ → List Worker → List Usage → List Usage
record_usages now [] us = us
record_usages now (w ∷ ws) us = record { worker = w.id; created_at = now } ∷ record_usages now ws us

-- The workers chosen for a batch, a token each, and their usages.
unfoldable pub choose : ℕ → ℕ → ℕ → ℕ → Tables → List Worker
unfolding available_workers expanded
choose storage rate_limit count now t =
    let since = now - usage_window in
    take count (
      expanded rate_limit since t.usages
        (available_workers storage rate_limit since t.usages t.workers))

-- One transaction, begun after the one before it was committed; the source's run at the default isolation and may
-- overlap.
unfoldable pub get_token_batch : ℕ → ℕ → ℕ → ℕ → Tables → List ℕ × Tables
unfolding choose record_usages
get_token_batch storage rate_limit count now t =
    let chosen = choose storage rate_limit count now t in
    (map (λ w. w.token) chosen, record t { usages = record_usages now chosen t.usages })

-- The DELETE of `scheduleUsageCleanup`, at a time.
unfoldable pub expire_usages : ℕ → List Usage → List Usage
expire_usages now [] = []
expire_usages now (u ∷ us) =
    let rest = expire_usages now us in
    if ltb u.created_at (now - usage_window) then rest else u ∷ rest

-- `ListTokensByStorage` without its order, and `HasWorkers`.
unfoldable pub list_tokens_by_storage : ℕ → List Worker → List ℕ
unfolding serves
list_tokens_by_storage storage [] = []
list_tokens_by_storage storage (w ∷ ws) =
    let rest = list_tokens_by_storage storage ws in
    if serves storage w then w.token ∷ rest else rest

unfoldable pub has_workers : ℕ → List Worker → Bool
unfolding serves
has_workers storage [] = false
has_workers storage (w ∷ ws) = let rest = has_workers storage ws in serves storage w || rest

-- The statements of `Create`, `Update` and `Delete` behind the checks of the service. The id of a new
-- row is the database's; the token is UNIQUE.
unfoldable pub has_token : ℕ → List Worker → Bool
has_token token [] = false
has_token token (w ∷ ws) = let rest = has_token token ws in w.token == token || rest

unfoldable pub create :
    ℕ → List ℕ → ℕ → Option ℕ → Option ℕ → List Worker → Outcome Error Worker × List Worker
unfolding has_token
create id name user none storage ws = (err bad_request, ws)
create id name user (some token) storage ws =
    let w : Worker = record {
      id = id;
      name = name;
      user = user;
      token = token;
      storage = storage;
    } in
    if bytes_eq name []
    then (err bad_request, ws)
    else if has_token token ws
    then (err already_exists, ws)
    else (ok w, w ∷ ws)

unfoldable pub is_owned : ℕ → ℕ → Worker → Bool
is_owned id user w = w.id == id && w.user == user

unfoldable pub find_worker : ℕ → ℕ → List Worker → Option Worker
unfolding is_owned
find_worker id user [] = none
find_worker id user (w ∷ ws) =
    let rest = find_worker id user ws in if is_owned id user w then some w else rest

unfoldable pub update_rows : ℕ → ℕ → List ℕ → Option ℕ → List Worker → List Worker
unfolding is_owned
update_rows id user name storage [] = []
update_rows id user name storage (w ∷ ws) =
    let rest = update_rows id user name storage ws in
    if is_owned id user w then record w { name = name; storage = storage } ∷ rest else w ∷ rest

unfoldable pub update_worker :
    ℕ → ℕ → List ℕ → Option ℕ → List Worker → Outcome Error Worker × List Worker
unfolding update_rows find_worker
update_worker id user name storage ws =
    if bytes_eq name [] then (err bad_request, ws) else elim (find_worker id user ws) [
      | none ↦ (err not_found, ws)
      | some w ↦
          (ok (record w { name = name; storage = storage }), update_rows id user name storage ws)
    ]

unfoldable pub delete_rows : ℕ → ℕ → List Worker → List Worker
unfolding is_owned
delete_rows id user [] = []
delete_rows id user (w ∷ ws) =
    let rest = delete_rows id user ws in if is_owned id user w then rest else w ∷ rest

unfoldable pub delete_worker : ℕ → ℕ → List Worker → Option Error × List Worker
unfolding delete_rows find_worker
delete_worker id user ws = elim (find_worker id user ws) [
  | none ↦ (some not_found, ws)
  | some w ↦ (none, delete_rows id user ws)
]
