-- ===== src/Lib.antt =====
-- The firmware of firmware/airplay-receiver makes an ESP32-S3 show up as an iPod to a car's USB
-- host, and plays what it receives by AirPlay. This library models its own logic: the iAP engine
-- in firmware/airplay-receiver/components/ipod_usb/iap.c, the USB device around it in
-- firmware/airplay-receiver/components/ipod_usb/ipod_usb.c, and
-- firmware/airplay-receiver/main/main.c, which starts the program, feeds both and serves the web
-- pages; and the controller probe in firmware/controller-probe.
--
-- The parts, and how they work together:
--
--   host -> tud_hid_set_report_cb -> iap_rx_report: HID reports are put together to frames,
--   dispatch_packets finds the packets in a frame, parse_cmd reads each command by the table
--   cmd_sizes, and a handler per lingo answers it by tx_send: the answer becomes a packet
--   (pkt_encode), the packet reports (tx_frame), and the reports wait in a ring (txq_push) until
--   iap_tx_pump hands them to the host. The AirPlay side feeds iap_set_track and iap_set_playing,
--   and ipod_usb_push_pcm, which counts bytes in the engine (iap_note_pcm) and writes the PCM ring
--   that produce_batch reads. The status page prints the state of all of them and the log.
--
-- Which file models what:
--
--   Iap/Queue.antt       txq, txq_push, iap_tx_pump (the ring of 24 reports)
--   Iap/Packet.antt      cksum, pkt_encode, the search of dispatch_packets for a packet
--   Iap/Report.antt      tx_frame, and the reassembly of iap_rx_report; Iap/Report/Chain.antt has the
--                        reports of a host, in chunks of any size, by the link bytes of the protocol
--   Iap/Command.antt     cmd_buf_t and its put functions, cmd_sizes, parse_cmd, trx_track
--   Iap/State.antt       the static variables as the record Iap, tx_send and its two callers
--   Iap/General.antt     handle_general: identification, IDPS, authentication, options
--   Iap/Extremote.antt   handle_extremote and handle_audio
--   Iap/Live.antt        iap_set_track, iap_note_pcm, the position, the watchdog, the snapshot
--   Iap/Dispatch.antt    dispatch_packets and iap_rx_report over the whole state
--   Iap/Dispatch/Phases.antt, Iap/Dispatch/Ready.antt
--                        the handshake as an abstract machine over the commands of received frames
--   Iap/Delivery.antt    a command on its way from tx_send to the host; Iap/Delivery/Exchange.antt has
--                        the exchange from the reports of a query to those of its answer
--   Iap/Inv.antt         the entry points as a step relation, and the invariant of the engine
--   Usb/Ring.antt        the PCM ring: ipod_usb_push_pcm, and produce_batch at 44.1 kHz
--   Usb/Batch.antt       the whole of produce_batch: the resampler to 48 kHz and the marker tone
--   Usb/Device.antt      the state of ipod_usb.c, and the callbacks of TinyUSB that change it
--   Usb/Descriptors.antt the descriptors of ipod_usb.c and the callbacks that serve them
--   Usb/Attach.antt      ipod_usb_init, usb_stack_start, do_attach, attach_poll, audio_pump, the start of
--                        tusb_task with its boot delay, and a round of its loop
--   Usb/Status.antt      ipod_usb_get_status, the getters, the callbacks with a constant answer
--   Usb/Stream.antt      the audio from ipod_usb_push_pcm to tud_audio_write, over sequences of calls
--   Usb/Exchange.antt    an exchange at the device: tud_hid_set_report_cb, and rounds of tusb_task
--   Usb/Stall.antt       the stall watchdog in the rounds of tusb_task
--   Usb/Log.antt         the ring of log text: ipod_usb_log, ipod_usb_read_iap_log
--   Usb/Inv.antt         all of it as a step relation, with the invariant of the device
--   Airplay.antt         audio_data and audio_command of firmware/airplay-receiver/main/main.c
--   Pages.antt           status_handler, tone_handler and reboot_handler of the same file; Pages/Text.antt
--                        has the text of a format
--   Startup.antt         app_main of the same file up to its loop, and wifi_event
--   Probe.antt           firmware/controller-probe/main/probe.c
--   Runs.antt in each of these folders, and in some below   runs at concrete inputs
--
-- The modules below a part's module hold its lemmas. A definition has the name of the C function
-- that it models; a function that is cut into several definitions gives its name to the one that
-- puts them together, and the comment above the others says which part of it they are.
--
-- How the state is modelled:
--
--   - Static variables are fields of records, and a function that changes them takes and returns the
--     record. Functions run to completion one after the other. The source calls the engine from the USB
--     task and from the AirPlay side without a lock: Iap/Queue/Race.antt has the loads and stores of
--     a push and a pop of the report queue at the same time, and Usb/Ring/Race.antt the steps of pushes
--     and batches of the PCM ring, each step whole and seen at once by both tasks; other races are not
--     modelled.
--   - A C buffer with a fill count is the list of its filled bytes. Bytes beyond the count are never
--     read by the source. A C string is the list of its bytes before the 0.
--   - Unsigned integers are natural numbers with the wrap-around written out (u8, u16, u32 and
--     % 2 ^ 64); subtraction adds the modulus first. cert_cur and cert_max are integers.
--   - esp_timer_get_time is a parameter: clock k is the answer of its k-th call, and the state counts
--     the calls in reads. tud_hid_report of TinyUSB is the parameter accepts:
--     accepts k tells whether the host takes the k-th report that is offered.
--   - ipod_usb_log and iap_logf are modelled as lists of lines with the values that are formatted,
--     not the text; Usb/Log.antt models the ring that the text of these lines is written to, with the
--     text as an argument. ESP_LOG output is left out: it changes nothing.
--   - float is the parameter Floats, a record of the operations that produce_batch uses. The constants
--     of TinyUSB that the callbacks compare with are the parameter Tusb, and the answers of
--     tud_mounted, tud_control_status, usb_new_phy and the allocations are arguments.
--   - tud_audio_write is the end of the audio's way: audio_pump ignores how much it takes, and its FIFO,
--     of 1536 bytes, is not modelled.
--   - tud_task runs the callbacks, which are steps of their own. The constants of TinyUSB in the
--     descriptors are the parameter TusbDesc, its macro U16_TO_U8S_LE is a function. The start of the
--     program is the list of the calls that it makes of ESP-IDF, mDNS, the web server and the AirPlay
--     receiver, with their answers as a parameter; the Bluetooth controller of the probe is a record
--     of a state and its operations.
--   - A format is a list of pieces, so that the text of the status page can be computed. A number of
--     64 bits has 20 digits at most, which is the fuel of the digits.
--
-- Loops that are not over a list run on fuel: dispatch_loop and tx_loop get the number of bytes of
-- the frame, as each round takes one byte at least, fid_loop the number of tokens that the command
-- announces, pump_loop the number of reports in the ring, and boot_wait one round for each millisecond of the
-- delay and one more, as each round takes a millisecond at least. That dispatch_loop never runs out of
-- fuel is a result below; for the sending loop it follows from the result on reassembly, which says
-- that the whole frame is sent.
--
-- Not modelled: the text of log lines and ESP_LOG output; the loop of app_main but for its line, the
-- RAOP log functions and tud_hid_set_protocol_cb, which only print; all races but those of the
-- report queue and of the PCM ring at 44.1 kHz; the AirPlay receiver in components/raop and the ALAC decoder, which are copies of other
-- projects; the reference material under research/ and evidence/, the host test and the scripts.
pub mod Airplay
pub mod Common
pub mod Iap
pub mod Pages
pub mod Probe
pub mod Startup
pub mod Usb
