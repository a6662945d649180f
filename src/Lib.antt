-- ===== src/Lib.antt =====
-- The core daemon of a home security box: it keeps a registry of devices, works their timers, delays
-- and linkages, and answers clients over TCP and UDP.
--
-- The parts, and the files that model them (paths from the repository's root):
--   Codes, Codes/*   the codes of include/hsb_error.h, include/hsb_device.h, include/net_protocol.h
--   Device/Types     the structures of core_daemon/device.h, and the state: `DeviceCb` is gl_dev_cb of
--                    core_daemon/device.c, `Client` a context of the client pool of
--                    core_daemon/network.c, `World` both
--   Device/Find      _find_dev, find_dev_by_ip, _find_drv, get_dev_id_list
--   Device/Async     the functions that queue a request for the worker (probe_dev_async, ...)
--   Device/Async/Control   the other functions of lib/thread_utils.c
--   Device/Event     check_linkage, _dev_event and its callers, set_box_work_mode, notify_resp
--   Device/Registry  register_dev_drv, create_dev, register_dev, remove_dev, dev_online, dev_offline
--   Device/Timers, Device/Delays, Device/Linkages   the get, set and del functions of each table
--   Device/Check     check_timer_and_delay, called once a second
--   Device/Process   _process_dev_act and async_process_thread, what the worker does
--   Device/System    all of these as steps between states
--   Remote           core_daemon/remote_ctl.c
--   Network/Field    GET_CMD_FIELD and SET_CMD_FIELD of include/network_utils.h
--   Network/Reply    the functions that write replies and notifications
--   Network/Request, Network/Slots, Network/Tcp   deal_tcp_packet and the loop over one read
--   Network/Udp      deal_udp_packet
--   Network/Pool     get_client_context, put_client_context, _process_notify
--   Network/Session  tcp_client_handler, which serves a client
--   Switch           core_daemon/driver_virtual_switch.c: its list of devices, the datagrams they send
--   Switch/Probe     the search for switches
--   Switch/Ops       the exchanges with a virtual switch
--   Zigbee           core_daemon/driver_cg_zigbee.c: its list of devices and what they report
--   Zigbee/Ops       the requests to a ZigBee device, up to their answer
--   Zigbee/Frame     the frames that its monitor thread reads
--   Daemon           init_dev_module of core_daemon/device.c: the start with both drivers
--   Sim              misc/switch_sim.c, a simulated virtual switch, as the other end of Switch
--   Sim/Pad          the packets of misc/pad_sim.c, a simulated client, as the other end of Network/Tcp
--   Sim/Pad/Shown, Sim/Pad/Ask   what that client shows of the packets of Network, and what it asks
--   SmartConfig      misc/smart_config.c: a network's name and password as lengths of datagrams, with
--                    the receiver's reading in Receive and the loop that sends them in Send
--   IoUtils          read_timeout and write_timeout of lib/io_utils.c
--   Utils/Lines      readline1 and check_cmd_prefix of lib/utils.c
--   Utils/Base64     encrypt_b64 and decode_b64 of lib/utils.c, with base64 by RFC 4648 in Reference
-- A child named Laws, or after what it proves, holds the theorems of its parent, and one named Tests
-- runs the code on examples. Prelude holds what all of them share.
--
-- How they interact: a TCP request reads or writes the tables at once, or queues a request (Async) that
-- the worker takes (Process); an event of a device (Event) works its linkages, which queue requests,
-- and is copied to the queue of every client; the periodic check queues the requests of the timers
-- that are due. An answer goes to the queue of the context that asked, and from there to its socket.
--
-- How the code is read:
--   - A handler is a function from the state to its result and the new state; `none` as the result of a
--     network function is an access out of an array or through NULL.
--   - Unsigned integers are numbers, with the wrap-around written out where a value is computed; an int
--     that may be negative is its 32-bit pattern. The target is little-endian and 32-bit.
--   - The contents of a GQueue is a list, head first. A device is held in the one queue that links to
--     it; a pointer to a device is its id, a pointer to a context its index in the pool.
--   - The allocator is a flag of the state, `mem`, that says whether it hands out memory.
--   - A handler is one step: the mutexes are not modelled, and the interleavings are those of whole
--     handlers. g_queue_peek_nth is taken to give no NULL below the length of the queue.
--   - The loops over arrays and queues are structural recursion. The loop over the packets of one read
--     runs on fuel, one unit for each packet: as many units as the read has bytes are enough for packets
--     whose length field is not 0.
--   - The loop over the entries of a device's answer runs on fuel, one unit for each entry, with the bytes
--     of the answer as its amount, which is at least as many.
--   - Where the worker calls a driver, the drivers' operations are a record of functions, and the
--     exchange of a virtual switch is a function, too; the clock is a function from the number of the
--     reading to its value.
--   - A ZigBee request ends when the monitor thread hands it an answer or when its time is up: what happens
--     between is a function from the state in which it waits to the state in which it goes on. The bytes
--     of an uninitialised array are a function, too.
--   - The loops of misc/smart_config.c that wait for the clock are looked at for a number of turns: what is
--     shown of them holds for every such number.
--   - What the other threads do while a client's thread waits in select is a function from the state in
--     which it waits to the state in which it goes on.
--   - The search for switches and the start take what the system calls give as arguments: the list of the
--     receipts, and flags for the threads and the lines.
--
-- Not modelled: the sockets and the serial line under the two drivers; the start of threads and the main
-- loop (core_daemon/core_daemon.c, the UDP thread, the thread pool);
-- sockets, files, serial lines and logs (lib, include), which are system calls; the other tools in misc.
pub mod Prelude
pub mod Codes
pub mod Device
pub mod Remote
pub mod Network
pub mod Switch
pub mod Zigbee
pub mod Utils
pub mod Sim
pub mod IoUtils
pub mod Daemon
pub mod SmartConfig
