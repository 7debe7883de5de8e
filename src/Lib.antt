-- ===== src/Lib.antt =====
-- Taxi transport library: the Python models that its testbenches run against the hardware.
--
-- The repository's Python is made of models in src/*/tb/*.py, which the cocotb tests beside them
-- connect to the simulated hardware. This library models their own logic; the simulator, its signals
-- and the packages cocotb and cocotbext are not part of it.
--
-- Prelude: lists, Boolean tests, shifts and masks over the native numbers, and the laws of `&`, `|`
--   and `^` at every width.
-- Xfcp: src/xfcp/tb/xfcp.py. Xfcp/Cobs.antt is `cobs_encode` and `cobs_decode`; the loop of the
--   encoder is a fold of `encode_byte` over the block, that of the decoder takes as much fuel as there
--   are bytes, which is enough since each round takes one at least, there being no zero among them. Xfcp/Frame.antt is the class
--   `XfcpFrame`: `build`, `parse` and their COBS forms. Exceptions are values of Xfcp/Result.antt.
--   `frame_eq` is `__eq__` on two frames. Python's IndexError, AssertionError, TypeError and
--   struct.error are `index_error`, `assertion_error`, `type_error` and `struct_error`.
-- Ptp: src/ptp/tb/ptp_td.py. Ptp/Clock.antt is the clock that `PtpTdSource` and `PtpTdSink` both
--   keep, with its step `tick`; Ptp/Source.antt and Ptp/Sink.antt are the classes, each with the local
--   variables of `_run` as a record `Run`, one function for each part of a round of the loop, `round`
--   and `edge` for the whole, and `handle_reset`. A coroutine that does not run is `run = none`.
--   Ptp/Access.antt has the setters and getters on whole numbers. Numbers are not negative except
--   `ts_tod_alt_s`, which is an integer. Not modelled: the setters and getters that go through
--   decimal.Decimal, the log, and the event objects beyond the flag `pps`.
-- Baser: src/eth/tb/baser.py. Baser/Source.antt is the queue of `BaseRSerdesSource` and the part of its
--   `_run` that fills eight XGMII lanes (`fill_block`; `none` is AssertionError), Baser/Encode.antt the
--   block of the lanes, Baser/Scrambler.antt the scrambler and the descrambler, Baser/Decode.antt the lanes
--   that `BaseRSerdesSink._run` makes of a block, and Baser/Sink.antt the frames it makes of the lanes, with
--   its queue. Baser/Gearbox.antt is `set_gbx_cfg` and the gearbox sequence of both, and Baser/Pack.antt
--   the words of a block on a narrower interface, Baser/Slip.antt the bit slip of the source. Baser/Carry holds the state that source and sink share,
--   and Baser/Wire.antt puts a round of the source and of the sink together. The constants and XgmiiFrame
--   of cocotbext.eth are parameters (Baser/Codes.antt, Baser/Frame.antt). Not modelled: simulation times,
--   a sink without hdr_valid, and clock enables.
-- Cndm: src/cndm/tb/cndm.py. Cndm.antt has the packet buffers of `Driver` (`Pool`), the rings of `Sq` and `Rq`
--   (`Ring`; the methods that both have are one definition), the completion queue `Cq`, `start_xmit`,
--   `refill_rx_buffers` and the handlers `process_tx_cq` and `process_rx_cq`. A loop over completions is `scan`
--   (Cndm/Scan.antt), which raises or returns, with one pass over the queue and a round more as its fuel:
--   then the phase bit has changed. The regions of the memory pool are a parameter (`Memory`), and
--   `doorbells` stands for the writes to a register. Not modelled: the commands to the device, the event
--   queues and the interrupts, and what an exception leaves of the state.
-- Dma: src/dma/tb/dma_psdp_ram.py. Dma.antt is the segmentation of a transfer: `write` and `read` are
--   the checks of the methods, where `none` is ValueError; `process_write` and `process_read` are a
--   round of `_process_write` and `_process_read`, with the entries for the queues as their result;
--   `join_rounds` is the loop of `_process_read_resp`. Dma/Ram.antt is `PsdpRamRead._run` at a segment,
--   over any memory that is read; Dma/Ram/Lanes.antt is the list of writes that `PsdpRamWrite._run`
--   makes of a word. Not modelled: the bus side of the masters, the counts of operations
--   in flight, the rest of the write port, and Memory and Region of cocotbext.axi.
-- Mersenne: src/math/tb/mt19937.py and mt19937_64.py. Mersenne.antt is the text that the two classes
--   share, over a record of their numbers; Mersenne/Generators.antt has the numbers and the methods by
--   name. `next` is `int32` and `int64`, `next_b` is `int32b` and `int64b`. The loops of
--   `init_by_array` have IndexError as `none`, on the words and on the key; elsewhere `self.mt` has a
--   fixed length and indexing is total on the indexes used, and a negative index is `py_index`. A seed
--   and the items of a key are not negative.
-- Pcie: src/pcie/tb/pcie_if.py. Pcie.antt has PcieIfFrame, the parameters of an interface and PcieIfTransaction;
--   every optional signal is there. Pcie/Send.antt is the queue of `PcieIfSource` and the part of its `_run` that
--   puts frames into the segments of a transaction (`none` is an exception), Pcie/Receive.antt the part of
--   `PcieIfSink._run` that takes them out, and its queue. Pcie/Packed.antt is about signals that hold a field for
--   each segment, Pcie/Queue.antt about `send_nowait` and `full`, and Pcie/Parity.antt the parities of a frame. Not modelled: the
--   handshake on the bus, pause generators, Tlp of cocotbext.pcie, and PcieIfDevice and PcieIfTestDevice.
--
-- The other models of the repository (src/eth/tb/basex.py, src/cndm_proto/tb) are not modelled. Each
-- component's module Tests holds runs at fixed inputs and an instance of each theorem.
pub mod Baser
pub mod Cndm
pub mod Dma
pub mod Mersenne
pub mod Pcie
pub mod Prelude
pub mod Ptp
pub mod Xfcp
