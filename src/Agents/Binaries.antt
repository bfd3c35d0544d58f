-- ===== src/Agents/Binaries.antt =====
-- app/api/routes/agent_binaries.py: upload, update and delete of agent builds. The bytes live in a store
-- that is a parameter; a delete that the store refuses is only logged.
use open_v_center_backend.Prelude.{
  ℕ, ◌+◌, String, Bool, true, false, not, ◌&&◌, ◌||◌, Option, none, some, List, [], ◌∷◌, ◌++◌, ◌==◌,
  find, is_some, length, ltb, nonempty, str_eq, update_where, delete_where, if◌then◌else◌,
}
use open_v_center_backend.Json.{Json, null, bool, num, str, obj, Dict, end, entry}
use open_v_center_backend.Models.{Db}
use open_v_center_backend.Models.Records.{AgentBinary, User}
use open_v_center_backend.Errors.{
  Result, ok, err, api, api_error, not_found, forbidden, raise_if, or_raise, invalid, duplicate,
  too_large, storage_error, active_binary, ◌>>=◌, ◌>>◌,
}
use open_v_center_backend.Audit.{binary_target, record_event}

-- The store and what the upload takes from libraries.
pub record Library : Type 0 where
  pub strip : String → String
  -- `(name or "").lower().endswith(".exe")`
  pub is_exe : String → Bool
  -- `Path(name).name`
  pub base_name : String → String
  pub sha256 : List (List ℕ) → String
  pub backend : String
  pub object_key : ℕ → String → String
  -- whether `put_file` took the bytes
  pub stored : Bool

abbrev pub get_binary : Db → ℕ → Option AgentBinary
get_binary db i = find (λ b. b.id == i) db.agent_binaries

-- The rows that give way: `current` of _set_active.
abbrev pub is_demoted : AgentBinary → AgentBinary → Bool
is_demoted b r = str_eq r.hypervisor b.hypervisor && (r.is_active && not (r.id == b.id))

abbrev pub with_active : Bool → AgentBinary → AgentBinary
with_active a r = record r { is_active = a }

-- _set_active
unfoldable pub set_active : AgentBinary → List AgentBinary → List AgentBinary
set_active b rows =
    update_where (λ r. r.id == b.id) (with_active true)
      (update_where (is_demoted b) (with_active false) rows)

-- The bytes of an upload by chunks: its size, or why it is refused.
unfoldable pub read_chunks : ℕ → List (List ℕ) → Result ℕ
read_chunks size [] = ok size
read_chunks size (chunk ∷ chunks) =
    let rest = read_chunks (size + length chunk) chunks in
    if (size == 0) && not (starts_mz chunk)
    then err (api (api_error invalid 400))
    else if ltb 134217728 (size + length chunk)
    then err (api (api_error too_large 413))
    else rest
  where
    starts_mz : List ℕ → Bool
    starts_mz (a ∷ b ∷ s) = (a == 77) && (b == 90)
    starts_mz _ = false

abbrev pub is_same_build : String → String → AgentBinary → Bool
is_same_build version hypervisor r = str_eq r.version version && str_eq r.hypervisor hypervisor

abbrev new_binary :
    Library
    → ℕ
    → User
    → String
    → List (List ℕ)
    → ℕ
    → String
    → String
    → String
    → Option String
    → AgentBinary
new_binary lib id user file chunks size content_type version hypervisor notes = record {
  id = id;
  version = version;
  hypervisor = hypervisor;
  filename = lib.base_name file;
  size_bytes = size;
  checksum_sha256 = lib.sha256 chunks;
  content_type = content_type;
  storage_backend = lib.backend;
  storage_key = lib.object_key id (lib.base_name file);
  notes = nonempty notes;
  is_active = false;
  uploaded_by = user.email;
}

abbrev upload_details : AgentBinary → Bool → Dict
upload_details b make_active = entry "hypervisor" (str b.hypervisor) (
    entry "sizeBytes" (num b.size_bytes)
      (entry "sha256" (str b.checksum_sha256) (entry "makeActive" (bool make_active) end)))

-- The row and the event of an upload that was read to its end.
unfoldable pub add_binary : ℕ → ℕ → User → AgentBinary → Bool → Db → Db
unfolding set_active record_event
add_binary event_id now user b make_active db =
    let rows = db.agent_binaries ++ b ∷ [] in
    record_event event_id now (some user) "agent_binary.upload" (binary_target b) none
      (upload_details b make_active)
      (record db { agent_binaries = if make_active then set_active b rows else rows })

-- upload_agent_binary, `content_type` and the default hypervisor filled in.
unfoldable pub upload_agent_binary :
    Library
    → ℕ
    → ℕ
    → ℕ
    → User
    → Bool
    → String
    → List (List ℕ)
    → String
    → String
    → String
    → Option String
    → Bool
    → Db
    → Result Db
unfolding add_binary read_chunks
upload_agent_binary lib id event_id now user admin file chunks content_type version hypervisor notes
      make_active db =
    raise_if (not admin) forbidden
    >> (raise_if (str_eq (lib.strip version) "") (api_error invalid 400)
        >> (raise_if (not (lib.is_exe file)) (api_error invalid 400)
            >> (raise_if
                  (is_some (find (is_same_build (lib.strip version) hypervisor) db.agent_binaries))
                  (api_error duplicate 409)
                >> (read_chunks 0 chunks >>= λ size.
                    raise_if (size == 0) (api_error invalid 400)
                    >> (raise_if (not lib.stored) (api_error storage_error 502)
                        >> ok (
                            add_binary event_id now user
                              (new_binary lib id user file chunks size content_type
                                (lib.strip version) hypervisor notes)
                              make_active db))))))

abbrev pub new_notes : Option (Option String) → Option String → Option String
new_notes none old = old
new_notes (some n) old = nonempty n

-- `is_active`: not given, or null, is no change.
unfoldable pub edit_active : Option Bool → AgentBinary → List AgentBinary → List AgentBinary
unfolding set_active
edit_active none b rows = rows
edit_active (some true) b rows = set_active b rows
edit_active (some false) b rows = update_where (λ r. r.id == b.id) (with_active false) rows

abbrev pub active_after : Option Bool → Bool → Bool
active_after none old = old
active_after (some a) old = a

abbrev text_json : Option String → Json
text_json none = null
text_json (some s) = str s

abbrev same_text : Option String → Option String → Bool
same_text none none = true
same_text (some s) (some t) = str_eq s t
same_text _ _ = false

abbrev same_bool : Bool → Bool → Bool
same_bool true b = b
same_bool false b = not b

abbrev entry_if : Bool → String → Json → Dict → Dict
entry_if true k v d = entry k v d
entry_if false k v d = d

-- The event of a change; none where nothing changed.
unfoldable pub record_changes : ℕ → ℕ → User → AgentBinary → Option String → Bool → Db → Db
unfolding record_event
record_changes event_id now user b notes active db =
    let noted = not (same_text b.notes notes) in
    let switched = not (same_bool b.is_active active) in
    let side = λ (n : Option String) (a : Bool).
      obj (entry_if noted "notes" (text_json n) (entry_if switched "isActive" (bool a) end)) in
    if noted || switched
    then record_event event_id now (some user) "agent_binary.update" (binary_target b) none
        (entry "before" (side b.notes b.is_active) (entry "after" (side notes active) end)) db
    else db

-- update_agent_binary
unfoldable pub update_agent_binary :
    ℕ → ℕ → User → Bool → ℕ → Option (Option String) → Option Bool → Db → Result Db
unfolding edit_active record_changes
update_agent_binary event_id now user admin i notes active db =
    raise_if (not admin) forbidden
    >> (or_raise (get_binary db i) (api not_found) >>= λ b. ok (
        record_changes event_id now user b (new_notes notes b.notes)
          (active_after active b.is_active)
          (record db {
            agent_binaries = edit_active active b (
                update_where (λ r. r.id == b.id) (λ r. record r { notes = new_notes notes r.notes })
                  db.agent_binaries);
          })))

-- delete_agent_binary
unfoldable pub delete_agent_binary : ℕ → ℕ → User → Bool → ℕ → Db → Result Db
unfolding record_event
delete_agent_binary event_id now user admin i db =
    raise_if (not admin) forbidden
    >> (or_raise (get_binary db i) (api not_found) >>= λ b.
        raise_if b.is_active (api_error active_binary 409)
        >> (let db' =
              record_event event_id now (some user) "agent_binary.delete" (binary_target b) none
                (entry "hypervisor" (str b.hypervisor) end) db in
            ok (record db' { agent_binaries = delete_where (λ r. r.id == i) db'.agent_binaries })))
