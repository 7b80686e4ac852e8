-- ===== src/Usa/Words.antt =====
-- include/usched.h: the operations, categories, components and properties of the administration tool, and
-- the words for them.
pub mod Distinct
use usched.Base.{ℕ, List, [], ◌∷◌, Option, codes}
use usched.Usc.Words.{find_word}

pub data AdminOp : Type 0 where
  add delete change show commit rollback : AdminOp

pub data Category : Type 0 where
  all auth core exec ipc network stat users : Category

pub data Component : Type 0 where
  auth bind blacklist conn delta jail local id msg privdrop remote report serialize sock thread
        whitelist :
      Component

pub data Property : Type 0 where
  addr dir file freq gid group key limit max mode name noexec port priority reload size timeout uid
        use_local user users workers :
      Property

abbrev pub component_word : Component → List ℕ
component_word Component.auth = codes "auth"
component_word bind = codes "bind"
component_word blacklist = codes "blacklist"
component_word conn = codes "conn"
component_word delta = codes "delta"
component_word jail = codes "jail"
component_word local = codes "local"
component_word id = codes "id"
component_word msg = codes "msg"
component_word privdrop = codes "privdrop"
component_word remote = codes "remote"
component_word report = codes "report"
component_word serialize = codes "serialize"
component_word sock = codes "sock"
component_word thread = codes "thread"
component_word whitelist = codes "whitelist"

abbrev pub property_word : Property → List ℕ
property_word addr = codes "addr"
property_word dir = codes "dir"
property_word file = codes "file"
property_word freq = codes "freq"
property_word gid = codes "gid"
property_word group = codes "group"
property_word key = codes "key"
property_word limit = codes "limit"
property_word max = codes "max"
property_word mode = codes "mode"
property_word name = codes "name"
property_word noexec = codes "noexec"
property_word port = codes "port"
property_word priority = codes "priority"
property_word reload = codes "reload"
property_word size = codes "size"
property_word timeout = codes "timeout"
property_word uid = codes "uid"
property_word use_local = codes "use"
property_word user = codes "user"
property_word Property.users = codes "users"
property_word workers = codes "workers"

-- src/usa/parse.c, `_parse_get_op`
pub parse_admin_get_op : List ℕ → Option AdminOp
parse_admin_get_op op =
    find_word
      ((codes "add", add)
        ∷ (codes "delete", delete)
        ∷ (codes "change", change)
        ∷ (codes "show", show)
        ∷ (codes "commit", commit)
        ∷ (codes "rollback", rollback)
        ∷ [])
      op

-- src/usa/parse.c, `_parse_get_category`
pub parse_admin_get_category : List ℕ → Option Category
parse_admin_get_category category =
    find_word
      ((codes "all", all)
        ∷ (codes "auth", Category.auth)
        ∷ (codes "core", core)
        ∷ (codes "exec", exec)
        ∷ (codes "ipc", ipc)
        ∷ (codes "network", network)
        ∷ (codes "stat", stat)
        ∷ (codes "users", Category.users)
        ∷ [])
      category
