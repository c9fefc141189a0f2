-- ===== src/Lib.antt =====
-- A verification library for NoteUSB, the USB/HID module of NoteDaemon.
--
-- The program. NoteUSBModule (src/module.cpp) is loaded by NoteDaemon, which hands it the messages
-- of a management socket. It passes them to one DeviceHandler (src/device_handler.cpp), which
-- lists the HID devices, claims and releases them through libusb, and records each claim in a
-- crash-recovery file (DeviceRegistry) and in the daemon's ownership registry. A client with a
-- claimed device has a device socket of its own and a NoteUSBSession (src/note_usb_session.cpp)
-- that answers the messages on it. SessionManager (include/note_usb/session_manager.h) knows every
-- session and broadcasts to their sockets.
--
-- The files.
--   Shared: names of the library, Boolean tests, texts as lists of byte codes, integers, and
--     `std::map` as the list of its entries with `find`, `erase`, `operator[]` and `emplace`.
--   Protocol: the keys, messages and error codes of NoteMessaging, and the objects that are sent.
--     Protocol/Shape says when such an object is well formed.
--   Platform: what the program calls and the repository does not hold (libusb, sockets, the file
--     system, NoteBytes, the encryption provider). An `Env` answers each call by a function of the
--     calls made before; a `World` is that history, the text of the file, and the session table.
--     A C++ function is an `Act`: from the world to its result and the world that it leaves.
--   Registry: DeviceRegistry. Print and Read are json_object, write_registry and read_registry on
--     texts; Numbers, Search, RoundTrip, Contents and Lookup are proofs.
--   Usb: USBDeviceDescriptor, ids and the HID test, which the handler and the session both have.
--   Manager: SessionManager, with its laws in Manager/Laws.
--   Handler: DeviceHandler's fields, discovery and the device list; Handler/Claim is claim_device,
--     Handler/Release is release_device, release_all_devices and the destructor. Handler/Handles
--     counts handles, Handler/Invariant relates available_devices_ and claimed_devices_,
--     Handler/Replies says what a client hears, Handler/Discovery what a discovery finds.
--     Handler/Recovery relates the table of claimed devices to the crash-recovery file,
--     Handler/Owners reads it as a table of locks, Handler/Typed is about what is sent.
--   Session: NoteUSBSession's fields, responses and device operations; Session/Messages is
--     handle_message with its handlers, Session/Cipher is encrypt_data, decrypt_data and the loop
--     that reads a key, Session/Key the end of that loop and of every message; Session/Lifecycle
--     is the reading loop and the registration with SessionManager. Session/Replies counts answers, Session/Handles counts
--     handles. Session/Live is a session with its streaming thread, from the constructor to the
--     destructor. Session/Keeps is the rule for what every handler keeps, with its uses for handles,
--     for the shape of messages, for the fields of the client, and for the id under which the
--     encryption provider is asked. Session/Thread cuts start, read_socket and stop into actions,
--     and runs a session's thread and the threads that stop it in any order.
--   Module: handle_management_message; Module/Reachable relates every sequence of requests to
--     the handler's invariant, its handles, its file, its locks and what it sends. Module/Hotplug is
--     the hotplug callbacks and check_health; its children are their registration, and whom their
--     notices reach. Module/Life is NoteUSBModule with all its fields, from the constructor
--     over init, start and stop to shutdown; Life/Clients is its device sockets, each with a
--     session. Life/Reachable relates every sequence of calls, and its siblings say what one call
--     keeps.
--   Streaming: the process thread of HIDStreamingThread (src/hid_streaming_thread.cpp), with its
--     queue as a parameter; Streaming/Order follows the packets. Streaming/Capture is start, stop,
--     the transfer callback and the destructor. Streaming/System interleaves the capture thread,
--     the process thread, a caller of stop and the session's thread, which may change the session's
--     encryption, step by step; its children follow the reports
--     through every interleaving, find the states without a way out, and ask how many reports come
--     and what is written in plain text. Streaming/Start and Streaming/Stop say how start and stop
--     end.
--   Monitor: the crash monitor (monitor/note_usb_monitor.cpp), a program of its own that the
--     module starts, with the DeviceRegistry of NoteDaemon as a parameter; Monitor/Recovered says
--     when it ends and what it does to the handles.
--   Tests: concrete answers of the libraries with one mouse, and runs of the code with them.
--
-- A method in the source that goes on after an early return is cut into one definition for each
-- part, in the source's order. A shared_ptr<USBDeviceDescriptor> of the handler stands only in
-- available_devices_, so a write through it is a change of that entry. SessionManager and
-- DeviceRegistry hold a mutex in each call. DeviceHandler has none: that its calls come one after
-- the other, as from one thread of the daemon, is assumed, and each is one step.
--
-- Bounds and fuel. The loop of read_registry has one more than the length of the text as fuel:
-- each round leaves at least one byte behind. Out of fuel it is `none`. The loop that reads an
-- encryption key has the size of the data as fuel; an element that does not move the offset makes the source's loop endless, which is the
-- result `hung`. A pid and an interface number wrap to 32 bits as the casts of read_registry do;
-- `stoll` fails outside 64 bits. Exceptions and null pointers that the source does not catch are
-- the results `threw` and `crashed`. The process loop takes as fuel the number of reports that it
-- may pop; on an empty queue the source waits for more, which is again `hung`. `stop` waits for the
-- process thread, and passes its fuel on to that loop. The monitor's fuel is the number of times
-- that it may look for the daemon's process.
--
-- The queue of reports is a third-party header. It is a parameter with the laws of a bounded list,
-- and each of its operations is one step; `stop` pushes from a thread of its own, a second producer
-- that this header does not allow for, and what that may break is left out.
--
-- A `::write` of a packet is delivered, would block or fails, and the history says which; one that
-- writes a part of the packet, which the source does not tell from the rest, counts as delivered.
-- In Streaming, process_loop and stop as whole calls read the session as it is at their start; only
-- Streaming/System lets the session's thread change it meanwhile, between two reports.
--
-- Not modelled: log lines; mkdir of the file's directory; time stamps; the buffer of a transfer;
-- the interleaving of a session's thread within one message, and with the other calls of the
-- module than stop and destruction; what a JSON library throws on a configuration of other types;
-- NoteUSBModule::handle_resume, which only logs, and its discover_devices, which passes the call on;
-- the stub monitor/main.cpp; the monitor's signals and session; tests and documents. A write to a
-- socket whose exceptions the source swallows counts as a message handed over.
pub mod Shared
pub mod Protocol
pub mod Platform
pub mod Registry
pub mod Usb
pub mod Manager
pub mod Handler
pub mod Session
pub mod Module
pub mod Streaming
pub mod Monitor
pub mod Tests
