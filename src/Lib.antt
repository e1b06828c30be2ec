-- ===== src/Lib.antt =====
-- GCFFlasher: the tool that programs the firmware of dresden elektronik Zigbee products.
--
-- The program is a platform independent core (gcf.c) over a platform layer (main_posix.c,
-- main_windows.c, main_dos.c), with small helper modules of its own. A firmware file is read and
-- parsed, the device is reset into its bootloader, and the bootloader is fed the firmware over a
-- serial line. The newer bootloaders speak a framed byte protocol (protocol.c), with fields laid
-- out by buffer_helper.c; u_bstream.c reads the header of the firmware file.
--
-- What models what:
--   Base            C arrays as lists, fixed-width arithmetic, bit fields, bytes in memory
--   Protocol        protocol.c: PROT_SendFlagged is send_flagged, over the loop send_loop;
--                   PROT_ReceiveFlagged is receive_flagged, over receive_loop, whose round is
--                   rx_byte on the state RxState (PROT_RxState). PROT_Packet is called with the
--                   packets that the model collects in a list.
--   BufferHelper    buffer_helper.c, each function under its name, on a memory and a pointer
--   BStream         u_bstream.c, each function under its name, on the record BStream (U_BStream)
--   GcfFile         gcf.c: GCF_ParseFile is parse_file on the record GcfFile (GCF_File)
--   SStream         u_sstream.c, each function under its name, on the record SStream (U_SStream)
--   Mem             u_mem.c
--   Posix           main_posix.c: the record Posix is PL_Internal, with PROT_Putc, PROT_Flush and
--                   PROT_Write (putc, flush, write); Posix/Loop is PL_Loop (run_loop, rounds), over
--                   a core that is a parameter, and Posix/Core takes the one of Gcf for it.
--                   Posix/Queue is the queue that the ring of bytes to send implements.
--   Linux           linux_get_usb_devices.c: query_udevadm in Linux/Udev, the search of
--                   plGetLinuxUSBDevices in /dev/serial/by-id in Linux/ById
--   Net             net.c, the table of clients of the UDP server
--   Windows         main_windows.c and main_dos.c, their buffer of bytes to send; of main_windows.c
--                   PL_Loop and PL_Connect (Windows/Loop), PL_GetDevices and GetComPort
--                   (Windows/Ports), PL_Printf (Windows/Printf) and the command line
--                   of mainCRTStartup (Windows/Arguments)
--   Dos             main_dos.c: the receive ring between port_isr and PL_Loop, and the main loop itself
--                   (Dos/Loop)
--   Gpio            linux_libgpiod_reset.c, both resets, with the calls of libgpiod in a list
--   Gcf             gcf.c: the record Gcf is GCF_t, the function pointers state and substate are the
--                   enumerations State and Substate, and every handler ST_* has its name in small
--                   letters: in Gcf/Upload those that feed the bootloaders, in Gcf/Bootloader and
--                   Gcf/Reset those before them. Gcf/CommandLine has gcfProcessCommandline, Gcf/PathType
--                   gcfGetDeviceType, Gcf/Machine the dispatcher GCF_HandleEvent (handle), the
--                   input GCF_Received (received) and PROT_Packet. About them are Gcf/Returns and
--                   Gcf/Nesting (the dispatcher), Gcf/Chunks, Gcf/Requests and Gcf/Image (the V3
--                   upload), Gcf/Pages and Gcf/Book (the V1 upload), and Gcf/Input (the text
--                   buffer). Gcf/Runs has the runs of the program as a relation on the state and
--                   the timer (Clock);
--                   Gcf/Hooks says what handlers expect of the events they dispatch, and Gcf/Alive,
--                   Gcf/Awake, Gcf/Timers, Gcf/Started and Gcf/Waits what each handler does to the
--                   timer.
--
-- The platform layer is the record Platform: what its functions answer while one event is handled.
-- What the core asks of it is collected in the list `effects`, in order. PROT_Flush on a closed line
-- and PL_Disconnect dispatch EV_DISCONNECTED from inside a handler, and so they do in the model.
--
-- Conventions. A w-bit unsigned number is a natural number below 2 ^ w, with the wrap written out.
-- `unsigned long` has 64 bits. A memory is a list of bytes; a read out of range gives 0, a write
-- out of range changes nothing, and theorems say where accesses stay in range.
--
-- Assert (gcf.h) is nothing, as in a build with NDEBUG (cmake -DCMAKE_BUILD_TYPE=Release). The README's
-- commands for Linux build without it, and an Assert that fails ends such a build. Theorems that
-- cover such a case say that they are about a build with NDEBUG: a V3 request inside a firmware with
-- 65535 bytes or more left, a V1 request for a page past the end, and links of /dev/serial/by-id
-- that do not resolve, do not fit or have no serial number.
--
-- UI_UpdateProgress, which divides by the size of the firmware, ends the program where that is 0; such a
-- handler returns `none`, like one that runs out of fuel.
--
-- Fuel. The loops of protocol.c count in an unsigned short against an unsigned length. send_loop
-- and receive_loop take fuel, one more than the number of bytes, which is enough for up to 65535
-- bytes; beyond that the C loop does not end, and no fuel is enough.
--
-- The dispatcher `handle` takes as fuel the depth to which its calls nest, for which seven is enough.
-- The parser of the output of udevadm takes one round more than there are characters, which is
-- enough, and the output of integers 20 rounds, which is enough for 64 bits. The main loop runs over
-- the list of what poll() and read() answer.
--
-- Not modelled: the terminal output, the option of the network server, the operating system calls of
-- the platform layers, the sockets, the devices of macOS, the reset over libftdi, and the text
-- conversion of floating point numbers.
pub mod Base
pub mod Protocol
pub mod BufferHelper
pub mod BStream
pub mod GcfFile
pub mod SStream
pub mod Mem
pub mod Gcf
pub mod Posix
pub mod Linux
pub mod Net
pub mod Windows
pub mod Dos
pub mod Gpio
