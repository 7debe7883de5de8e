-- ===== src/Pcie/Tests.antt =====
-- Runs of the models of the PCIe interface at fixed inputs, and instances of their theorems.
use taxi.Prelude.{
  ◌+◌, ◌-◌, ◌*◌, ◌/◌, ◌%◌, ◌^◌, ◌≡◌, refl, true, none, some, [], ◌∷◌, ◌++◌, ◌⊎◌, arith,
}
use taxi.Prelude.Digits.{test_bit}
use taxi.Pcie.{PcieIfFrame, Interface, Transaction, no_frame}
use taxi.Pcie.Send.{PcieIfSource, full, send_nowait, send_transaction}
use taxi.Pcie.Receive.{PcieIfSink, header_dwords, take_transaction}
use taxi.Pcie.Arrival.{Ready, arrived}
use taxi.Pcie.Link.{Link, through, segments_left}
use taxi.Pcie.Drive.{FrameFits}
use taxi.Pcie.Parity.{dword_parity, parity, update_parity, check_parity}
use taxi.Pcie.Parity.Digits.{ones, parity-ones, parity-dword_parity}
use taxi.Pcie.Parity.Checked.{update_parity-FrameFits}
use taxi.Pcie.Exchange.{exchange, transaction-Link, exchange_all}
use taxi.Pcie.Queue.{Over, send_nowait-Link}

-- Two segments of two lanes.
abbrev interface : Interface
interface = record {
  seg_count = 2;
  seg_byte_lanes = 2;
  seg_empty_width = 1;
  seq_width = 6;
  func_num_width = 8;
  vf_num_width = 11;
}

-- A frame of three dwords.
abbrev with_data : PcieIfFrame
with_data = record no_frame {
  hdr = 2 ^ 126 + 3 * 2 ^ 96;
  dwords = 0x01020304 ∷ 0x05060708 ∷ 0x090a0b0c ∷ [];
  parity = 1 ∷ 2 ∷ 3 ∷ [];
  vf_num = some 5;
  seq = 9;
}

with_data-Ready : Ready interface with_data
unfolding header_dwords test_bit
with_data-Ready = record {
  fits = record {
    hdr_lt = omega arith;
    tlp_prfx_lt = omega arith;
    hdr_par_lt = omega arith;
    tlp_prfx_par_lt = omega arith;
    bar_id_lt = omega arith;
    error_lt = omega arith;
    seq_lt = omega arith;
    dwords_lt = (omega arith, (omega arith, (omega arith, tt)));
    parity_lt = (omega arith, (omega arith, (omega arith, tt)));
    parities = refl;
  };
  announced = refl;
}

abbrev header_only : PcieIfFrame
header_only = record no_frame { hdr = 5; func_num = 3 }

header_only-Ready : Ready interface header_only
unfolding header_dwords test_bit
header_only-Ready = record {
  fits = record {
    hdr_lt = omega arith;
    tlp_prfx_lt = omega arith;
    hdr_par_lt = omega arith;
    tlp_prfx_par_lt = omega arith;
    bar_id_lt = omega arith;
    error_lt = omega arith;
    seq_lt = omega arith;
    dwords_lt = tt;
    parity_lt = tt;
    parities = refl;
  };
  announced = refl;
}

abbrev source : PcieIfSource
source = record {
  sending = none;
  queue = with_data ∷ header_only ∷ [];
  queue_occupancy_bytes = 3;
  queue_occupancy_frames = 2;
  queue_occupancy_limit_bytes = 0;
  queue_occupancy_limit_frames = 0;
}

abbrev sink : PcieIfSink
sink = record {
  frame = none;
  dword_count = 0;
  queue = [];
  queue_occupancy_bytes = 0;
  queue_occupancy_frames = 0;
}

source-Link : Link interface source sink
source-Link = (refl, ((with_data-Ready, (header_only-Ready, tt)), (refl, refl)))

transaction-Link_example :
    (t : Transaction) × (s' : PcieIfSource) × (r' : PcieIfSink) × ((send_transaction interface
          source
        ≡ some (t, s'))
      × ((take_transaction interface t sink ≡ some r')
          × (Link interface s' r'
              × ((through interface s' r' ≡ through interface source sink)
                  × (segments_left interface s'
                      ≡ segments_left interface source - interface.seg_count)))))
transaction-Link_example =
    transaction-Link interface (omega arith) (omega arith) source sink source-Link

exchange_all_example :
    (s' : PcieIfSource) × (r' : PcieIfSink) × ((exchange interface 2 source sink ≡ some (s', r'))
      × (Link interface s' r'
          × ((s'.sending ≡ none) × ((s'.queue ≡ []) × (r'.queue ≡ through interface source sink)))))
exchange_all_example =
    exchange_all interface (omega arith) (omega arith) 2 source sink source-Link (omega arith)

abbrev source_more : PcieIfSource
source_more = record source {
  queue = with_data ∷ header_only ∷ header_only ∷ [];
  queue_occupancy_bytes = 3;
  queue_occupancy_frames = 3;
}

not_full : send_nowait header_only source ≡ some source_more
unfolding send_nowait full
not_full = refl

send_nowait-Link_example :
    (Over source × (send_nowait header_only source ≡ none))
    ⊎ ((¬ Over source)
        × ((s' : PcieIfSource) × ((send_nowait header_only source ≡ some s')
              × (Link interface s' sink
                  × (through interface s' sink
                      ≡ through interface source sink ++ (arrived interface header_only ∷ []))))))
send_nowait-Link_example =
    send_nowait-Link interface header_only source sink source-Link header_only-Ready

-- Three dwords are over a limit of two.
over_limit : send_nowait header_only (record source { queue_occupancy_limit_bytes = 2 }) ≡ none
unfolding send_nowait full
over_limit = refl

parity-ones_example : parity 0x0103ff / 2 ^ 2 % 2 ≡ ones (0x0103ff / 2 ^ (2 * 8)) % 2
parity-ones_example = parity-ones 3 2 0x0103ff (omega arith) (omega arith)

parity-dword_parity_example : parity 0x80000001 ≡ dword_parity 0x80000001
parity-dword_parity_example = parity-dword_parity 0x80000001 (omega arith)

update_parity-FrameFits_example :
    let g = update_parity with_data in
    FrameFits interface g × ((check_parity g ≡ true) × (check_parity (arrived interface g) ≡ true))
update_parity-FrameFits_example =
    update_parity-FrameFits interface with_data (omega arith) (omega arith) (omega arith)
      (omega arith) (omega arith) (omega arith, (omega arith, (omega arith, tt)))
