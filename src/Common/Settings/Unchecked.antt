-- ===== src/Common/Settings/Unchecked.antt =====
-- `config_init_ipc` compares the negated answer of each check with 0, so that no check ever refuses.
use usched.Base.{◌≡◌, false, some, arith}
use usched.Base.Int.{is_negative}
use usched.Common.Files.{returns, FilePath, setting_file}
use usched.Common.Settings.{Libc, value_init_long_from_file, value_init_string_from_file}
use usched.Common.Settings.Ipc.{IpcSettings, config_init_ipc}
use usched.Usa.Words.{
  Category, Component, Property, id, msg, jail, privdrop, key, name, max, size, dir, user, group,
}

abbrev pub ipc_file : Component → Property → FilePath
ipc_file k p = setting_file Category.ipc false k p

module _ {F : Type 0} (c : Libc F) (f : F) where
  -- If the eight values for the messages can be read, and the user and the group exist, they are accepted
  -- whatever they are: a key of any length, any numbers, and a jail that need not be a directory.
  pub ipc_unchecked :
      (ipc : IpcSettings)
      → value_init_string_from_file c f (ipc_file Component.auth key) ≡ returns ipc.auth_key
      → value_init_long_from_file c f (ipc_file id key) ≡ returns ipc.id_key
      → value_init_string_from_file c f (ipc_file id name) ≡ returns ipc.id_name
      → value_init_long_from_file c f (ipc_file msg max) ≡ returns ipc.msg_max
      → value_init_long_from_file c f (ipc_file msg size) ≡ returns ipc.msg_size
      → value_init_string_from_file c f (ipc_file jail dir) ≡ returns ipc.jail_dir
      → value_init_string_from_file c f (ipc_file privdrop user) ≡ returns ipc.privdrop_user
      → c.os.getpwnam f ipc.privdrop_user ≡ some ipc.privdrop_uid
      → value_init_string_from_file c f (ipc_file privdrop group) ≡ returns ipc.privdrop_group
      → c.os.getgrnam f ipc.privdrop_group ≡ some ipc.privdrop_gid
      → config_init_ipc c f ≡ returns ipc
  unfolding config_init_ipc is_negative
  ipc_unchecked ipc a b d e g h i j k l = ground arith
