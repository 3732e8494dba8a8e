-- ===== src/Vault/Batching/Handler.antt =====
-- vault_compiler/batching.py: `_DebouncedEventHandler.on_any_event`, and which events reach a batch.
use graphify_daemon_portfoli.Prelude.{
  ◌≡◌, ◌≢◌, ◌↔◌, refl, arith, Bool, true, false, Option, none, some, List, String, str_eq, eq_iff,
  if◌then◌else◌, inl, inr, Option-cases, Bool-cases,
}
use graphify_daemon_portfoli.Prelude.Exec.{Result, ok, raise}
use graphify_daemon_portfoli.Vault.Path.{FilePath}
use graphify_daemon_portfoli.Vault.FileSystem.{FileSystem}
use graphify_daemon_portfoli.Vault.Exclusions.{is_excluded, resolve_within_vault}
use graphify_daemon_portfoli.Vault.Batching.{ChangeKind, FileChange, file_change}

-- watchdog's event, its paths decoded
pub record FileSystemEvent : Type 0 where
  pub event_type : String
  pub is_directory : Bool
  pub src_path : FilePath
  pub dest_path : FilePath

-- `_WATCHDOG_EVENT_KIND.get(event_type)`
unfoldable pub watchdog_event_kind : String → Option ChangeKind
watchdog_event_kind t =
    if str_eq t "created"
    then some ChangeKind.created
    else if str_eq t "modified"
    then some ChangeKind.modified
    else if str_eq t "deleted"
    then some ChangeKind.deleted
    else if str_eq t "moved"
    then some ChangeKind.renamed
    else none

-- The events of watchdog that a kind of change stands for, by their documented names.
abbrev pub Names : String → ChangeKind → Type 0
Names t ChangeKind.created = t ≡ "created"
Names t ChangeKind.modified = t ≡ "modified"
Names t ChangeKind.deleted = t ≡ "deleted"
Names t ChangeKind.renamed = t ≡ "moved"

kind-Names : (t : String) (kind : ChangeKind) → watchdog_event_kind t ≡ some kind → Names t kind
unfolding watchdog_event_kind
kind-Names t ChangeKind.created h = ground (arith, eq_iff t "created")
kind-Names t ChangeKind.modified h = ground (arith, eq_iff t "modified")
kind-Names t ChangeKind.deleted h = ground (arith, eq_iff t "deleted")
kind-Names t ChangeKind.renamed h = ground (arith, eq_iff t "moved")

kind_known : (t : String) (kind : ChangeKind) → Names t kind → watchdog_event_kind t ≡ some kind
unfolding watchdog_event_kind
kind_known t ChangeKind.created h = rw h
kind_known t ChangeKind.modified h = rw h
kind_known t ChangeKind.deleted h = rw h
kind_known t ChangeKind.renamed h = rw h

-- What a call of the handler does: nothing, a log line about a rejected path, or `on_change`.
pub data Outcome : Type 0 where
  ignored : Outcome
  rejected : FilePath → Outcome
  changed : FileChange → Outcome

abbrev on_change : Result FileChange → Result Outcome
on_change (raise e) = raise e
on_change (ok change) = ok (changed change)

module _ (fs : FileSystem) (vault_root : FilePath) (nested_repo_names : List String) where
  -- The tests on a path that is not a rename's.
  unfoldable pub filter_path : FilePath → ChangeKind → Result Outcome
  unfolding file_change
  filter_path path kind = elim (is_excluded path vault_root nested_repo_names) [
    | raise e ↦ raise e
    | ok true ↦ ok ignored
    | ok false ↦ elim (resolve_within_vault fs path vault_root) [
      | raise e ↦ raise e
      | ok none ↦ ok (rejected path)
      | ok (some _) ↦ on_change (file_change path kind none)
    ]
  ]

  abbrev by_kind : FileSystemEvent → ChangeKind → Result Outcome
  by_kind event ChangeKind.renamed =
      on_change (file_change event.dest_path ChangeKind.renamed (some event.src_path))
  by_kind event ChangeKind.created = filter_path event.src_path ChangeKind.created
  by_kind event ChangeKind.modified = filter_path event.src_path ChangeKind.modified
  by_kind event ChangeKind.deleted = filter_path event.src_path ChangeKind.deleted

  unfoldable pub on_any_event : FileSystemEvent → Result Outcome
  unfolding filter_path file_change
  on_any_event event =
      if event.is_directory then ok ignored else elim (watchdog_event_kind event.event_type) [
        | none ↦ ok ignored
        | some kind ↦ by_kind event kind
      ]

  -- The resolved path, if the path resolves inside the vault.
  abbrev real_path_of : FilePath → Option FilePath
  real_path_of path = elim (resolve_within_vault fs path vault_root) [ raise e ↦ none | ok o ↦ o ]

  -- What lets a change of one path through: in the observed scope, and resolving inside the vault.
  pub record IsAdmitted (path : FilePath) : Type 0 where
    pub in_scope : is_excluded path vault_root nested_repo_names ≡ ok false
    pub real_path : FilePath
    pub confined : resolve_within_vault fs path vault_root ≡ ok (some real_path)

  abbrev plain_change : FilePath → ChangeKind → FileChange
  plain_change path kind = record { path = path; kind = kind; previous_path = none }

  abbrev rename : FilePath → FilePath → FileChange
  rename src dest = record { path = dest; kind = ChangeKind.renamed; previous_path = some src }

  filtered :
      (path : FilePath) (kind : ChangeKind) (c : FileChange)
      → kind ≢ ChangeKind.renamed
      → filter_path path kind ≡ ok (changed c)
      → (c ≡ plain_change path kind) × IsAdmitted path
  unfolding filter_path file_change
  filtered path ChangeKind.renamed c h e = absurd (h refl)
  filtered path kind c h e = elim (Option-cases (real_path_of path)) [
    | inl none_real ↦ absurd (ground arith)
    | inr (p, found) ↦
        (ground arith, record { in_scope = ground arith; real_path = p; confined = ground arith })
  ]

  passes :
      (path : FilePath) (kind : ChangeKind)
      → kind ≢ ChangeKind.renamed
      → IsAdmitted path
      → filter_path path kind ≡ ok (changed (plain_change path kind))
  unfolding filter_path file_change
  passes path ChangeKind.renamed h a = absurd (h refl)
  passes path kind h a = ground (arith, a.in_scope, a.confined)

  -- Which change an event makes, if any.
  pub data Makes (event : FileSystemEvent) (c : FileChange) : Type 0 where
    moved_file :
        event.is_directory ≡ false
        → event.event_type ≡ "moved"
        → c ≡ rename event.src_path event.dest_path
        → Makes event c
    changed_file :
        (kind : ChangeKind)
        → event.is_directory ≡ false
        → Names event.event_type kind
        → kind ≢ ChangeKind.renamed
        → IsAdmitted event.src_path
        → c ≡ plain_change event.src_path kind
        → Makes event c

  by_kind-Makes :
      (event : FileSystemEvent) (c : FileChange)
      → event.is_directory ≡ false
      → (kind : ChangeKind) → watchdog_event_kind event.event_type ≡ some kind
      → by_kind event kind ≡ ok (changed c)
      → Makes event c
  unfolding filter_path file_change
  by_kind-Makes event c file ChangeKind.renamed known h =
      moved_file file (kind-Names event.event_type ChangeKind.renamed known) (ground arith)
  by_kind-Makes event c file ChangeKind.created known h =
      let (same, admitted) = filtered event.src_path ChangeKind.created c (λ p. cc) h in
      changed_file ChangeKind.created file (kind-Names event.event_type ChangeKind.created known)
        (λ p. cc) admitted same
  by_kind-Makes event c file ChangeKind.modified known h =
      let (same, admitted) = filtered event.src_path ChangeKind.modified c (λ p. cc) h in
      changed_file ChangeKind.modified file (kind-Names event.event_type ChangeKind.modified known)
        (λ p. cc) admitted same
  by_kind-Makes event c file ChangeKind.deleted known h =
      let (same, admitted) = filtered event.src_path ChangeKind.deleted c (λ p. cc) h in
      changed_file ChangeKind.deleted file (kind-Names event.event_type ChangeKind.deleted known)
        (λ p. cc) admitted same

  by_kind_passes :
      (event : FileSystemEvent) (kind : ChangeKind)
      → kind ≢ ChangeKind.renamed
      → IsAdmitted event.src_path
      → by_kind event kind ≡ ok (changed (plain_change event.src_path kind))
  by_kind_passes event ChangeKind.renamed h a = absurd (h refl)
  by_kind_passes event ChangeKind.created h a = passes event.src_path ChangeKind.created h a
  by_kind_passes event ChangeKind.modified h a = passes event.src_path ChangeKind.modified h a
  by_kind_passes event ChangeKind.deleted h a = passes event.src_path ChangeKind.deleted h a

  made :
      (event : FileSystemEvent) (c : FileChange)
      → Makes event c
      → on_any_event event ≡ ok (changed c)
  unfolding on_any_event file_change
  made event c (moved_file file moved same) =
      ground (arith, file, kind_known event.event_type ChangeKind.renamed moved, same)
  made event c (changed_file kind file named plain admitted same) = ground (
    arith,
    file,
    kind_known event.event_type kind named,
    same,
    by_kind_passes event kind plain admitted,
  )

  makes :
      (event : FileSystemEvent) (c : FileChange)
      → on_any_event event ≡ ok (changed c)
      → Makes event c
  unfolding on_any_event
  makes event c h = elim (Bool-cases event.is_directory) [
    | inl directory ↦ absurd (ground arith)
    | inr file ↦ elim (Option-cases (watchdog_event_kind event.event_type)) [
      | inl unknown ↦ absurd (ground arith)
      | inr (kind, known) ↦ by_kind-Makes event c file kind known (ground arith)
    ]
  ]

  -- Exactly these events of a file make a change: a "moved" one, whatever its destination, which makes a
  -- rename of the event's two paths, and a "created", "modified" or "deleted" one whose path is in the
  -- observed scope and resolves inside the vault, which makes a change of that kind and path.
  pub on_any_event_iff :
      (event : FileSystemEvent) (c : FileChange)
      → (on_any_event event ≡ ok (changed c)) ↔ Makes event c
  on_any_event_iff event c = (makes event c, made event c)
