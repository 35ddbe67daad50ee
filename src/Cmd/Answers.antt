-- ===== src/Cmd/Answers.antt =====
-- The answer of src/app_cmd.c to any request.
use b80_key.Prelude.{ℕ, ◌+◌, ◌-◌, ◌≤◌, ◌<◌, ◌≡◌, ◌≢◌, ◌∙◌, refl, arith}
use b80_key.Prelude.{
  List, [], ◌∷◌, true, false, ◌==◌, ==_iff, ltb, not, ◌&&◌, by_test, length, take, drop, set,
  get_or, length-drop, length-set,
}
use b80_key.Flash.{Flash}
use b80_key.Eep.Log.{All}
use b80_key.Cmd.Ids.{
  CmdId, cmd_value, cmd_dev_id, cmd_dname, cmd_cfg, cmd_cfg_def, cmd_dev_mac, cmd_cfs, cmd_cfs_def,
  cmd_pincode, cmd_bkey,
}
use b80_key.Cmd.{
  Device, Request, push_notify, Chip, Handled, unknown_command, switch, request_len, send,
  start_reply, app_on_write_data,
}
use b80_key.Cmd.Buffer.{head-set, head-set_first, length-take_within, head-take}
use b80_key.Cmd.Ready.{IsReady, IsChip, notified, IsStarted, IsReply}
use b80_key.Cmd.Replies.{
  get_dev_id-IsReply, dev_name-IsReply, dev_config-IsReply, default_dev_config-IsReply,
  dev_mac-IsReply, sensor_config-IsReply, default_sensor_config-IsReply,
}
use b80_key.Cmd.KeyReplies.{unknown_command-IsReply, set_pincode-IsReply, bind_key-IsReply}

module _ (d : Flash) (v : Chip) (chip : IsChip v) where
  switch-IsReply :
      (s : Device) (cmd len : ℕ) (bs : List ℕ)
      → len ≤ length bs
      → IsStarted cmd s
      → IsReply cmd (switch d v cmd s len bs)
  unfolding switch cmd_value
  switch-IsReply s cmd len bs complete st =
      let P = IsReply cmd in
      by_test P (cmd == 0) (λ e. rw ((==_iff cmd 0).0 e) (get_dev_id-IsReply d v chip s st.ready))
        (λ _.
          by_test P (cmd == 1) (λ _. dev_name-IsReply d v chip s cmd len bs st)
            (λ _.
              by_test P (cmd == 0x55) (λ _. dev_config-IsReply d v chip s cmd len bs st)
                (λ _.
                  by_test P (cmd == 0x56) (λ _. default_dev_config-IsReply d v chip s cmd st)
                    (λ _.
                      by_test P (cmd == 0x10) (λ _. dev_mac-IsReply d v chip s cmd len bs st)
                        (λ _.
                          by_test P (cmd == 0x25)
                            (λ _. sensor_config-IsReply d v chip s cmd len bs st)
                            (λ _.
                              by_test P (cmd == 0x26)
                                (λ _. default_sensor_config-IsReply d v chip s cmd st)
                                (λ _.
                                  by_test P (cmd == 0x70)
                                    (λ _. set_pincode-IsReply d v chip s cmd len bs st)
                                    (λ _.
                                      by_test P (cmd == 0x18)
                                        (λ _. bind_key-IsReply d v chip s cmd len bs complete st)
                                        (λ _. unknown_command-IsReply d v chip s cmd st)))))))))

  start_reply-IsStarted : (s : Device) (cmd : ℕ) → IsReady s → IsStarted cmd (start_reply d v cmd s)
  start_reply-IsStarted s cmd r =
      let first = set s.send_buf 0 cmd in
      record {
        ready = record {
          settings = r.settings;
          bindkey = r.bindkey;
          buffer = length-set first 1 0 ∙ length-set s.send_buf 0 cmd ∙ r.buffer;
        };
        head = head-set 0 0 first ∙ head-set_first cmd s.send_buf (omega (arith, r.buffer));
      }

  notified-send :
      (cmd : ℕ) (h : Handled)
      → IsReply cmd h
      → notified (send d v h).1 ≡ take h.olen h.device.send_buf ∷ []
  unfolding notified
  notified-send cmd h r =
      let some_len : h.olen == 0 ≡ false = ground (arith, r.low) in rw some_len (r.quiet _)

  -- In a ready state, a request of at least one byte that has as many bytes as its length says, when the
  -- notifications are on, is answered by one notification of 1 to 20 bytes that starts with the
  -- command, and leaves a ready state.
  pub app_on_write_data-IsReady :
      (s : Device) (r : Request)
      → IsReady s
      → s.rx_tx_value_in_ccc ≢ 0
      → 4 ≤ r.l2cap_len
      → r.l2cap_len < 65536
      → r.l2cap_len ≤ 3 + length r.dat
      → let (s', actions) = app_on_write_data d v s r in
        IsReady s'
        × ((out : List ℕ) × (notified actions ≡ out ∷ [])
            × (1 ≤ length out)
            × (length out ≤ 20)
            × (get_or out 0 0 ≡ get_or r.dat 0 0))
  unfolding app_on_write_data
  app_on_write_data-IsReady s r ready on low high complete =
      let cmd = get_or r.dat 0 0 in
      let len = request_len d v r in
      let is_len : len ≡ r.l2cap_len - 3 = omega arith in
      let heard : (not (s.rx_tx_value_in_ccc == 0) && ltb 0 len) ≡ true =
        ground (arith, on, low, is_len) in
      let h = switch d v cmd (start_reply d v cmd s) (len - 1) (drop 1 r.dat) in
      let reply =
        switch-IsReply (start_reply d v cmd s) cmd (len - 1) (drop 1 r.dat)
          (omega (arith, length-drop 1 r.dat, is_len, complete))
          (start_reply-IsStarted s cmd ready) in
      let out = take h.olen h.device.send_buf in
      let size : length out ≡ h.olen =
        length-take_within h.olen h.device.send_buf
          (omega (arith, reply.high, reply.ready.buffer)) in
      rw heard (
        reply.ready,
        (
          out,
          notified-send cmd h reply,
          omega (arith, size, reply.low),
          omega (arith, size, reply.high),
          head-take h.olen h.device.send_buf reply.low ∙ reply.head,
        ),
      )

  -- The commands that are understood
  abbrev pub supported : List CmdId
  supported =
      cmd_dev_id ∷ cmd_dname ∷ cmd_cfg ∷ cmd_cfg_def ∷ cmd_dev_mac ∷ cmd_cfs ∷ cmd_cfs_def
      ∷ cmd_pincode ∷ cmd_bkey ∷ []

  switch-unknown_command :
      (s : Device) (cmd len : ℕ) (bs : List ℕ)
      → All (λ i. cmd ≢ cmd_value i) supported
      → switch d v cmd s len bs ≡ unknown_command d v s
  unfolding switch cmd_value
  switch-unknown_command s cmd len bs (h0, (h1, (h2, (h3, (h4, (h5, (h6, (h7, (h8, _))))))))) =
      let no : (k : ℕ) → cmd ≢ k → cmd == k ≡ false = λ k h. ground (arith, h) in
      rw
        (
          no 0 h0,
          no 1 h1,
          no 0x55 h2,
          no 0x56 h3,
          no 0x10 h4,
          no 0x25 h5,
          no 0x26 h6,
          no 0x70 h7,
          no 0x18 h8,
        )
        refl

  -- A command that is not supported, whatever its parameters, when the notifications are on: the
  -- answer is the command and 0xff, and nothing but the reply buffer changes.
  pub app_on_write_data-unknown_command :
      (s : Device) (r : Request) (x y : ℕ) (rest : List ℕ)
      → s.send_buf ≡ x ∷ y ∷ rest
      → s.rx_tx_value_in_ccc ≢ 0
      → 4 ≤ r.l2cap_len
      → r.l2cap_len < 65536
      → All (λ i. get_or r.dat 0 0 ≢ cmd_value i) supported
      → app_on_write_data d v s r ≡ (
        record s { send_buf = get_or r.dat 0 0 ∷ 0xff ∷ rest },
        push_notify (get_or r.dat 0 0 ∷ 0xff ∷ []) ∷ [],
      )
  unfolding app_on_write_data unknown_command
  app_on_write_data-unknown_command s r x y rest buf on low high other =
      let len = request_len d v r in
      let is_len : len ≡ r.l2cap_len - 3 = omega arith in
      let heard : (not (s.rx_tx_value_in_ccc == 0) && ltb 0 len) ≡ true =
        ground (arith, on, low, is_len) in
      let cmd = get_or r.dat 0 0 in
      let unknown =
        switch-unknown_command (start_reply d v cmd s) cmd (len - 1) (drop 1 r.dat) other in
      rw (heard, unknown, buf) refl
