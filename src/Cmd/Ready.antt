-- ===== src/Cmd/Ready.antt =====
-- The state of src/app_cmd.c between commands, and in a command before and after its case of the switch.
use b80_key.Prelude.{ℕ, suc, ◌+◌, ◌≤◌, ◌≡◌, ◌≢◌, ◌∙◌, refl, arith}
use b80_key.Prelude.{List, [], ◌∷◌, ◌++◌, length, set, get_or, length-set}
use b80_key.Flash.{Mem, Flash}
use b80_key.Data.{Settings, TemperatureCfg, test_dev_cfg}
use b80_key.Data.Limits.{IsValid, test_dev_cfg-IsValid}
use b80_key.Cmd.{
  request_reset, Device, Action, push_notify, erase_all_pairing, init_beacon, Chip, Handled, put_at,
  at_most,
}
use b80_key.Cmd.Buffer.{length-put_at, head-put_at, head-set}

-- Valid settings, a key of 16 bytes and a buffer of 20.
pub record IsReady (s : Device) : Type 0 where
  pub settings : IsValid s.settings
  pub bindkey : length s.settings.bindkey ≡ 16
  pub buffer : length s.send_buf ≡ 20

pub record IsChip (v : Chip) : Type 0 where
  pub rf_index : v.rf_index ≢ 0
  pub macs : (m : Mem) → length (v.init_mac m).1 ≡ 12
  pub behind : 8 ≤ length v.behind_dev_id

-- The notifications among the calls
unfoldable pub notified : List Action → List (List ℕ)
notified [] = []
notified (push_notify bs ∷ es) = bs ∷ notified es
notified (erase_all_pairing ∷ es) = notified es
notified (init_beacon ∷ es) = notified es

-- In a case of the switch, before the parameters of the reply
pub record IsStarted (cmd : ℕ) (s : Device) : Type 0 where
  pub ready : IsReady s
  pub head : get_or s.send_buf 0 0 ≡ cmd

-- A case of the switch that has prepared a reply to `cmd`.
pub record IsReply (cmd : ℕ) (h : Handled) : Type 0 where
  pub ready : IsReady h.device
  pub low : 1 ≤ h.olen
  pub high : h.olen ≤ 20
  pub head : get_or h.device.send_buf 0 0 ≡ cmd
  pub quiet : (es : List Action) → notified (h.actions ++ es) ≡ notified es

IsValid-other :
    (w : Settings) (t : TemperatureCfg) (p : ℕ) (key : List ℕ)
    → IsValid w
    → IsValid (record w { temperature_cfg = t; pincode = p; bindkey = key })
IsValid-other w t p key v = record {
  interval_low = v.interval_low;
  interval_high = v.interval_high;
  measured = v.measured;
  power = v.power;
  name_low = v.name_low;
  name_high = v.name_high;
  buffer = v.buffer;
}

pub at_most_le : (n len : ℕ) → at_most n len ≤ n
at_most_le n len = ground arith

module _ (d : Flash) (v : Chip) (chip : IsChip v) where
  pub put_at-IsReply :
      (s : Device) (cmd i olen : ℕ) (bs : List ℕ)
      → IsStarted cmd s
      → suc i + length bs ≤ 20
      → 1 ≤ olen
      → olen ≤ 20
      → IsReply cmd (record {
        device = record s { send_buf = put_at (suc i) bs s.send_buf };
        olen = olen;
        actions = [];
      })
  put_at-IsReply s cmd i olen bs st fits low high = record {
    ready = record {
      settings = st.ready.settings;
      bindkey = st.ready.bindkey;
      buffer =
          length-put_at (suc i) bs s.send_buf (omega (arith, st.ready.buffer, fits))
          ∙ st.ready.buffer;
    };
    low = low;
    high = high;
    head = head-put_at i bs s.send_buf (omega (arith, st.ready.buffer)) ∙ st.head;
    quiet = λ es. refl;
  }

  pub test_dev_cfg-IsStarted :
      (s : Device) (w : Settings) (m : Mem) (cmd : ℕ)
      → IsStarted cmd s
      → length w.bindkey ≡ 16
      → length w.tbl_scan_rsp.name ≡ 21
      → IsStarted cmd (record s { settings = test_dev_cfg v.rf_index w; mem = m })
  unfolding test_dev_cfg
  test_dev_cfg-IsStarted s w m cmd st key name = record {
    ready = record {
      settings = test_dev_cfg-IsValid v.rf_index w chip.rf_index name;
      bindkey = key;
      buffer = st.ready.buffer;
    };
    head = st.head;
  }

  pub other_settings-IsStarted :
      (s : Device) (m : Mem) (t : TemperatureCfg) (p : ℕ) (key : List ℕ) (cmd : ℕ)
      → length key ≡ 16
      → IsStarted cmd s
      → IsStarted cmd (record s {
        settings = record (s.settings) { temperature_cfg = t; pincode = p; bindkey = key };
        mem = m;
      })
  other_settings-IsStarted s m t p key cmd sixteen st = record {
    ready = record {
      settings = IsValid-other s.settings t p key st.ready.settings;
      bindkey = sixteen;
      buffer = st.ready.buffer;
    };
    head = st.head;
  }

  pub started-IsReply :
      (cmd olen : ℕ) (s : Device) (actions : List Action)
      → IsStarted cmd s
      → 1 ≤ olen
      → olen ≤ 20
      → ((es : List Action) → notified (actions ++ es) ≡ notified es)
      → IsReply cmd (record { device = s; olen = olen; actions = actions })
  started-IsReply cmd olen s actions st low high quiet = record {
    ready = st.ready;
    low = low;
    high = high;
    head = st.head;
    quiet = quiet;
  }

  pub reset-IsStarted : (s : Device) (cmd : ℕ) → IsStarted cmd s → IsStarted cmd (request_reset s)
  reset-IsStarted s cmd st = record {
    ready = record {
      settings = st.ready.settings;
      bindkey = st.ready.bindkey;
      buffer = st.ready.buffer;
    };
    head = st.head;
  }

  -- A status in the second byte
  pub status-IsStarted :
      (s : Device) (cmd x : ℕ)
      → IsStarted cmd s
      → IsStarted cmd (record s { send_buf = set s.send_buf 1 x })
  status-IsStarted s cmd x st = record {
    ready = record {
      settings = st.ready.settings;
      bindkey = st.ready.bindkey;
      buffer = length-set s.send_buf 1 x ∙ st.ready.buffer;
    };
    head = head-set 0 x s.send_buf ∙ st.head;
  }
