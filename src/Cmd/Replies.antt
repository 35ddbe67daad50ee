-- ===== src/Cmd/Replies.antt =====
-- The replies of src/app_cmd.c to the commands on the name, the configurations and the address.
use b80_key.Prelude.{ℕ, ◌-◌, ◌≤◌, ◌≡◌, ◌∙◌, refl, ap, arith}
use b80_key.Prelude.{
  List, [], ◌++◌, ◌==◌, ◌&&◌, by_test, length, take, get_or, length-take, length-set,
}
use b80_key.Flash.{Flash, length-bytes_at}
use b80_key.Data.{
  temperature_cfg_def, save_dev_name, save_dev_cfg, max_dev_name_len, overwrite, dev_cfg_bytes,
  dev_cfg_of, dev_cfg_def,
}
use b80_key.Cmd.{
  Device, Chip, put_at, dev_id_bytes, at_most, get_dev_id, dev_name, set_dev_name, dev_config,
  set_dev_cfg, default_dev_config, dev_mac, set_mac, change_mac, sensor_config, set_temp_cfg,
  temp_cfg_reply, default_sensor_config,
}
use b80_key.Cmd.Buffer.{length-overwrite, length-put_at, head-put_at, head-set, length-take_within}
use b80_key.Cmd.Ready.{
  IsReady, IsChip, IsStarted, IsReply, at_most_le, put_at-IsReply, test_dev_cfg-IsStarted,
  other_settings-IsStarted,
}

module _ (d : Flash) (v : Chip) (chip : IsChip v) where
  pub get_dev_id-IsReply : (s : Device) → IsReady s → IsReply 0 (get_dev_id d v s)
  unfolding get_dev_id put_at
  get_dev_id-IsReply s r =
      let full : length (take 20 (dev_id_bytes ++ v.behind_dev_id)) ≡ 20 =
        length-take_within 20 (dev_id_bytes ++ v.behind_dev_id) (omega (arith, chip.behind)) in
      record {
        ready = record {
          settings = r.settings;
          bindkey = r.bindkey;
          buffer =
              length-put_at 0 (take 20 (dev_id_bytes ++ v.behind_dev_id)) s.send_buf
                (omega (arith, full, r.buffer))
              ∙ r.buffer;
        };
        low = omega arith;
        high = omega arith;
        head = refl;
        quiet = λ es. refl;
      }

  set_dev_name-IsStarted :
      (s : Device) (cmd len : ℕ) (bs : List ℕ)
      → IsStarted cmd s
      → IsStarted cmd (set_dev_name d v s len bs)
  unfolding save_dev_name
  set_dev_name-IsStarted s cmd len bs st =
      by_test (IsStarted cmd) (len == 0) (λ _. st)
        (λ _.
          let n = at_most max_dev_name_len len in
          let copied : length (take n bs) ≤ 20 =
            omega (arith, length-take n bs, at_most_le 20 len) in
          let scan = s.settings.tbl_scan_rsp in
          let named = record (s.settings) {
            tbl_scan_rsp = record scan { name = overwrite scan.name (take n bs) };
          } in
          test_dev_cfg-IsStarted d v chip s named _ cmd st st.ready.bindkey (
            length-overwrite scan.name (take n bs) (omega (arith, copied, st.ready.settings.buffer))
            ∙ st.ready.settings.buffer))

  pub dev_name-IsReply :
      (s : Device) (cmd len : ℕ) (bs : List ℕ)
      → IsStarted cmd s
      → IsReply cmd (dev_name d v s len bs)
  unfolding dev_name
  dev_name-IsReply s cmd len bs st =
      let s' = set_dev_name d v s len bs in
      let st' = set_dev_name-IsStarted s cmd len bs st in
      let scan = s'.settings.tbl_scan_rsp in
      put_at-IsReply d v chip s' cmd 0 scan.len (take (scan.len - 1) scan.name) st'
        (omega (
          arith,
          length-take (scan.len - 1) scan.name,
          st'.ready.settings.name_high,
          st'.ready.settings.name_low,
        ))
        st'.ready.settings.name_low st'.ready.settings.name_high

  set_dev_cfg-IsStarted :
      (s : Device) (cmd len : ℕ) (bs : List ℕ)
      → IsStarted cmd s
      → IsStarted cmd (set_dev_cfg d v s len bs)
  unfolding save_dev_cfg
  set_dev_cfg-IsStarted s cmd len bs st =
      by_test (IsStarted cmd) (len == 0) (λ _. st)
        (λ _.
          let c =
            dev_cfg_of (overwrite (dev_cfg_bytes s.settings.dev_cfg) (take (at_most 6 len) bs)) in
          test_dev_cfg-IsStarted d v chip s (record (s.settings) { dev_cfg = c }) _ cmd st
            st.ready.bindkey st.ready.settings.buffer)

  pub dev_config-IsReply :
      (s : Device) (cmd len : ℕ) (bs : List ℕ)
      → IsStarted cmd s
      → IsReply cmd (dev_config d v s len bs)
  unfolding dev_config
  dev_config-IsReply s cmd len bs st =
      put_at-IsReply d v chip (set_dev_cfg d v s len bs) cmd 1 7 _
        (set_dev_cfg-IsStarted s cmd len bs st) (omega arith) (omega arith) (omega arith)

  pub default_dev_config-IsReply :
      (s : Device) (cmd : ℕ) → IsStarted cmd s → IsReply cmd (default_dev_config d v s)
  unfolding default_dev_config
  default_dev_config-IsReply s cmd st =
      let w = record (s.settings) { dev_cfg = dev_cfg_def v.rf_index } in
      let st' =
        test_dev_cfg-IsStarted d v chip s w s.mem cmd st st.ready.bindkey
          st.ready.settings.buffer in
      record {
        ready = st'.ready;
        low = omega arith;
        high = omega arith;
        head = st'.head;
        quiet = λ es. refl;
      }

  change_mac-IsStarted :
      (n : ℕ) (more : List ℕ) (s : Device) (cmd : ℕ) (bs : List ℕ)
      → IsStarted cmd s
      → IsStarted cmd (change_mac d v n more s bs)
  change_mac-IsStarted n more s cmd bs st =
      by_test (IsStarted cmd) _ (λ _. st)
        (λ _. record {
          ready = record {
            settings = st.ready.settings;
            bindkey = st.ready.bindkey;
            buffer = st.ready.buffer;
          };
          head = st.head;
        })

  set_mac-IsStarted :
      (s : Device) (cmd len : ℕ) (bs : List ℕ)
      → IsStarted cmd s
      → IsStarted cmd (set_mac d v s len bs)
  set_mac-IsStarted s cmd len bs st =
      let made = v.init_mac (d.erase_sector s.mem v.mac_sector) in
      let size = get_or bs 0 0 in
      by_test (IsStarted cmd) (len == 1 && size == 0)
        (λ _. record {
          ready = record {
            settings = st.ready.settings;
            bindkey = st.ready.bindkey;
            buffer =
                length-put_at 2 made.1 s.send_buf
                  (omega (arith, chip.macs (d.erase_sector s.mem v.mac_sector), st.ready.buffer))
                ∙ st.ready.buffer;
          };
          head = head-put_at 1 made.1 s.send_buf (omega (arith, st.ready.buffer)) ∙ st.head;
        })
        (λ _.
          by_test (IsStarted cmd) (len == 7 && size == 6)
            (λ _. change_mac-IsStarted 6 v.random s cmd bs st)
            (λ _.
              by_test (IsStarted cmd) (len == 9 && size == 8)
                (λ _. change_mac-IsStarted 8 [] s cmd bs st) (λ _. st)))

  pub dev_mac-IsReply :
      (s : Device) (cmd len : ℕ) (bs : List ℕ)
      → IsStarted cmd s
      → IsReply cmd (dev_mac d v s len bs)
  unfolding dev_mac
  dev_mac-IsReply s cmd len bs st =
      let s' = set_mac d v s len bs in
      let st' = set_mac-IsStarted s cmd len bs st in
      let read = d.read_page s'.mem v.mac_sector 8 in
      let eight : length read ≡ 8 =
        ap length (d.read_lem s'.mem v.mac_sector 8) ∙ length-bytes_at s'.mem v.mac_sector 8 in
      let put =
        put_at-IsReply d v chip s' cmd 1 10 read st' (omega (arith, eight)) (omega arith)
          (omega arith) in
      record {
        ready = record {
          settings = st'.ready.settings;
          bindkey = st'.ready.bindkey;
          buffer = length-set (put_at 2 read s'.send_buf) 1 8 ∙ put.ready.buffer;
        };
        low = omega arith;
        high = omega arith;
        head = head-set 0 8 (put_at 2 read s'.send_buf) ∙ put.head;
        quiet = λ es. refl;
      }

  temp_cfg_reply-IsReply :
      (s : Device) (cmd : ℕ) → IsStarted cmd s → IsReply cmd (temp_cfg_reply d v s)
  temp_cfg_reply-IsReply s cmd st =
      put_at-IsReply d v chip s cmd 1 5 _ st (omega arith) (omega arith) (omega arith)

  pub sensor_config-IsReply :
      (s : Device) (cmd len : ℕ) (bs : List ℕ)
      → IsStarted cmd s
      → IsReply cmd (sensor_config d v s len bs)
  unfolding sensor_config
  sensor_config-IsReply s cmd len bs st = temp_cfg_reply-IsReply (set_temp_cfg d v s len bs) cmd (
      by_test (IsStarted cmd) (len == 0) (λ _. st)
        (λ _.
          other_settings-IsStarted d v chip s _ _ s.settings.pincode s.settings.bindkey cmd
            st.ready.bindkey st))

  pub default_sensor_config-IsReply :
      (s : Device) (cmd : ℕ) → IsStarted cmd s → IsReply cmd (default_sensor_config d v s)
  unfolding default_sensor_config
  default_sensor_config-IsReply s cmd st = temp_cfg_reply-IsReply _ cmd (
      other_settings-IsStarted d v chip s s.mem temperature_cfg_def s.settings.pincode
        s.settings.bindkey cmd st.ready.bindkey st)
