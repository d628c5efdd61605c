-- ===== src/Ssh/Interactive/Keys.antt =====
-- The keys that `auth_keyfile` imports are freed.
use esp.Base.{ℕ, suc, ◌+◌, ◌≡◌, [], ◌∷◌, arith}
use esp.Base.Bytes.{Text}
use esp.Base.Int.{ℤ}
use esp.Ssh.{
  Libssh, Log, Outcome, done, undefined, out_of_fuel, called, created, ssh_key_free,
  ssh_pki_import_pubkey_file, ssh_pki_import_privkey_file,
}
use esp.Ssh.Interactive.{auth_keyfile}

abbrev keys_made : Log → ℕ
keys_made [] = 0
keys_made (created (ssh_pki_import_pubkey_file path) ∷ log) = suc (keys_made log)
keys_made (created (ssh_pki_import_privkey_file path) ∷ log) = suc (keys_made log)
keys_made (e ∷ log) = keys_made log

abbrev keys_freed : Log → ℕ
keys_freed [] = 0
keys_freed (called (ssh_key_free key) ∷ log) = suc (keys_freed log)
keys_freed (e ∷ log) = keys_freed log

-- It ends, and has freed as many keys as it has made.
abbrev pub FreesKeys : Log → Outcome ℤ → Type 0
FreesKeys before (done rc after) =
    keys_made after + keys_freed before ≡ keys_made before + keys_freed after
FreesKeys before undefined = ⊥
FreesKeys before out_of_fuel = ⊥

module _ (E : Libssh) (session : ℕ) (keyfile : Text) where
  -- On every path, whatever the library answers, `auth_keyfile` ends with nothing undefined and has
  -- freed each key that it imported.
  auth_keyfile-FreesKeys : (log : Log) → FreesKeys log (auth_keyfile E session keyfile log)
  unfolding auth_keyfile
  auth_keyfile-FreesKeys log = ground arith
