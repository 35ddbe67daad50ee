-- ===== src/Cmd/KeyReplies.antt =====
-- The replies of src/app_cmd.c to the commands on the pincode and the bindkey, and to unknown ones.
use b80_key.Prelude.{ℕ, ◌≤◌, ◌≡◌, inl, inr, refl, arith}
use b80_key.Prelude.{List, [], ◌==◌, leb, not, ◌&&◌, by_test, Bool-cases, length, take}
use b80_key.Flash.{Flash}
use b80_key.Eep.Config.{u32_of}
use b80_key.Cmd.Ids.{}
use b80_key.Cmd.{Device, Chip, set_pincode, set_bindkey, bind_key, unknown_command}
use b80_key.Cmd.Buffer.{length-take_within}
use b80_key.Cmd.Ready.{
  IsChip, notified, IsStarted, IsReply, put_at-IsReply, other_settings-IsStarted, status-IsStarted,
  started-IsReply, reset-IsStarted,
}

module _ (d : Flash) (v : Chip) (chip : IsChip v) where
  pub unknown_command-IsReply :
      (s : Device) (cmd : ℕ) → IsStarted cmd s → IsReply cmd (unknown_command d v s)
  unfolding unknown_command
  unknown_command-IsReply s cmd st =
      started-IsReply d v chip cmd 2 _ [] (status-IsStarted d v chip s cmd 0xff st) (omega arith)
        (omega arith) (λ es. refl)

  pub set_pincode-IsReply :
      (s : Device) (cmd len : ℕ) (bs : List ℕ)
      → IsStarted cmd s
      → IsReply cmd (set_pincode d v s len bs)
  unfolding set_pincode notified
  set_pincode-IsReply s cmd len bs st =
      let new_pincode = u32_of bs in
      by_test (IsReply cmd) (len == 4)
        (λ _.
          started-IsReply d v chip cmd 2 _ _
            (by_test (IsStarted cmd)
              (not (s.settings.pincode == new_pincode) && leb new_pincode 999999)
              (λ _. reset-IsStarted d v chip _ cmd (
                status-IsStarted d v chip _ cmd 2 (
                  other_settings-IsStarted d v chip s _ s.settings.temperature_cfg new_pincode
                    s.settings.bindkey cmd st.ready.bindkey st)))
              (λ _. status-IsStarted d v chip s cmd 3 st))
            (omega arith) (omega arith) (λ es. refl))
        (λ _.
          started-IsReply d v chip cmd 2 _ _
            (by_test (λ b. IsStarted cmd (record s { send_buf = b })) (s.settings.pincode == 0)
              (λ _. st) (λ _. status-IsStarted d v chip s cmd 1 st))
            (omega arith) (omega arith) (λ es. refl))

  pub bind_key-IsReply :
      (s : Device) (cmd len : ℕ) (bs : List ℕ)
      → len ≤ length bs
      → IsStarted cmd s
      → IsReply cmd (bind_key d v s len bs)
  unfolding bind_key notified
  bind_key-IsReply s cmd len bs complete st = elim (Bool-cases (len == 16)) [
    | inl e ↦
        let whole : length (take 16 bs) ≡ 16 =
          length-take_within 16 bs (ground (arith, e, complete)) in
        let st' =
          other_settings-IsStarted d v chip s (set_bindkey d v s bs).mem s.settings.temperature_cfg
            s.settings.pincode (take 16 bs) cmd whole st in
        let r =
          put_at-IsReply d v chip (set_bindkey d v s bs) cmd 0 17 (take 16 bs) st'
            (omega (arith, whole)) (omega arith) (omega arith) in
        rw e (
          started-IsReply d v chip cmd 17 _ _ (record { ready = r.ready; head = r.head })
            (omega arith) (omega arith) (λ es. refl))
    | inr e ↦ rw e (
        put_at-IsReply d v chip s cmd 0 17 s.settings.bindkey st (omega (arith, st.ready.bindkey))
          (omega arith) (omega arith))
  ]
