-- ===== src/Updates/Pins/Edits.antt =====
-- What `readConst` and `writeConst` of scripts/update-apps/versions.ts do to a file of pins.
use jaritanet.Base.{◌≡◌, refl, ap, ◌∙◌, ◌⊎◌, inl, inr, none, some, ◌++◌, ◌>>=◌, Text, Option-cases}
use jaritanet.Base.Slices.{Lacks}
use jaritanet.Updates.Pins.{
  quote, Head, Match, only_match, const_head, read, write, read_const, write_const,
}
use jaritanet.Base.Options.{>>=-eq-some}
use jaritanet.Updates.Pins.Heads.{with_value}
use jaritanet.Updates.Pins.Search.{read-write_head, write_head_changes, write-write_head}
use jaritanet.Updates.Pins.Const.{IsKey, const_head-IsLawful}

-- Writing a value without quotes into a file of pins, and reading it back: for a key as the
-- configuration allows it, the value that was written is read.
pub read_const-write_const :
    (source key value written : Text)
    → IsKey key
    → Lacks quote value
    → write_const source key value ≡ some written
    → read_const written key ≡ some value
unfolding read_const write_const
read_const-write_const source key value written h l e =
    read-write_head (const_head key) (const_head-IsLawful key h) source value written e l

write-none :
    (head : Head) (source value : Text) → read head source ≡ none → write head source value ≡ none
unfolding read write
write-none head source value e =
    elim (only_match head source)
        as (λ o.
          (o >>= λ (m : Match). some m.value) ≡ none
          → (o >>= λ (m : Match). some (with_value m value)) ≡ none) [
            | none ↦ λ h. refl
            | some m ↦ λ h. cc h
          ]
      e

pub write-some :
    (head : Head) (source old value : Text)
    → read head source ≡ some old
    → (written : Text) × (write head source value ≡ some written)
unfolding read write
write-some head source old value e =
    let (m, only, q) = >>=-eq-some (only_match head source) (λ m. some m.value) old e in
    (with_value m value, rw only refl)

-- For a key as the configuration allows it, a write succeeds exactly where a read does: there it
-- replaces the value that was read and keeps
-- all before and behind it, and without a pin to read nothing is written.
pub write_const_replaces :
    (source key value : Text)
    → IsKey key
    → ((read_const source key ≡ none) × (write_const source key value ≡ none))
      ⊎ ((pre : Text) × (old : Text) × (post : Text) × (read_const source key ≡ some old)
          × (source ≡ pre ++ (old ++ post))
          × (write_const source key value ≡ some (pre ++ (value ++ post))))
unfolding read_const write_const
write_const_replaces source key value h = elim (Option-cases (read (const_head key) source)) [
  | inl e ↦ inl (e, write-none (const_head key) source value e)
  | inr (old, e) ↦
      let (written, w) = write-some (const_head key) source old value e in
      let (pre, v, post, r, p, q) =
        write_head_changes (const_head key) (const_head-IsLawful key h) source value written w in
      inr (pre, v, post, r, p, w ∙ ap some q)
]

-- For such a key, writing a value without quotes over the value that was read, and then that value
-- again, restores the file.
write_const_undo :
    (source key old value written : Text)
    → IsKey key
    → Lacks quote value
    → read_const source key ≡ some old
    → write_const source key value ≡ some written
    → write_const written key old ≡ some source
unfolding read_const write_const
write_const_undo source key old value written h l r e =
    write-write_head (const_head key) (const_head-IsLawful key h) source old value written r e l
