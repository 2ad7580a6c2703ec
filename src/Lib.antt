-- ===== src/Lib.antt =====
-- A model of the Monolinux C library: the parts of src/ that carry its own logic, with proofs.
--
-- The parts and the files that model them:
--
-- * src/ml_queue.c, the bounded queue of messages. Queue/Ring has the ring buffer, one function for
--   each of the C file but ml_queue_destroy. The mutex makes the body of ml_queue_get and of
--   ml_queue_put atomic, so each is one function from the state to an Attempt, which waits where
--   the code sleeps on a condition variable. Queue/Fifo is the list that a queue stands for,
--   Queue/Refine relates the two, Queue/Room is about a put that finds room, and Queue/Schedule has
--   the steps of several threads.
-- * src/ml_message.c and the header arithmetic of src/internal.h. Message has the heap as a map
--   from addresses to headers; an access to a header that is not there is `none`. Message/Counting
--   follows the reference count.
-- * src/ml_bus.c, the table from identifiers to queues. Bus/Registry has the table and its search,
--   Bus/Table its invariant, Bus/Lookup subscriptions, Bus/Delivery the broadcast, which runs on
--   the heap of Message and the queues of Queue, and Bus/Broadcast what it comes to.
-- * src/ml_timer.c, the timer handler. Timer/Deltas has the list of active timers, Timer/Handler
--   the operations, Timer/Remaining the list of expiries that the deltas stand for, Timer/Tick the
--   tick and Timer/Stop starting and stopping. ml_queue_put on a timer's queue is recorded and not
--   run.
-- * src/ml_inet.c, the Internet checksum: Inet, with Inet/Sum and Inet/Verify for its arithmetic.
-- * src/ml_dhcp_client.c, the DHCP client. Dhcp/State has the data of include/ml/ml.h, Dhcp/Options
--   the option parser, Dhcp/Packet received packets, Dhcp/Pack sent packets, which take the
--   checksum of Inet, Dhcp/System the system calls, Dhcp/Machine the states and the main loop, and
--   Dhcp/Start the start. Dhcp/Encoding, Accept, Header, Edges, Timers, Liveness, Sockets, Release
--   and Fuel have the theorems, and Dhcp/Diagram the transitions that Edges is about.
-- * src/ml_log_object.c, log objects. LogObject/Level has the names of levels, LogObject/Registry
--   the list of objects, LogObject/File the load and the store of levels, LogObject/RoundTrip,
--   Robust and Fuel what a load does, LogObject/Print the printing of a line and LogObject/Printed
--   what is written. fscanf() is a parameter, which LogObject/Scan shows can have the law used.
-- * src/ml.c, utilities: Utilities/Strip has ml_strip and its two halves, Utilities/Stripped what
--   they take and leave; Utilities/Dd has ml_dd, and Utilities/Copied what it copies;
--   Utilities/Hexdump has ml_hexdump and ml_hexdump_file, with Utilities/Dumps and Chunks on a dump
--   in parts; Utilities/Cpu has ml_get_cpus_stats and Utilities/Loads its loads.
-- * src/ml_shell.c, the shell. Shell/Line has the line buffer with its cursor, and Shell/Zipper the
--   texts before and behind the cursor that it stands for. Shell/Parse is the command parser,
--   Shell/Quoting a way to write arguments for it. Shell/History is the command history,
--   Shell/Recall what it keeps and recalls. Shell/Complete is the completion of command names,
--   Shell/Keys the editing keys, Shell/Search Ctrl+R, and Shell/Reader read_command. Shell/Editing
--   has the edits that keys stand for; Shell/Moves, Edits and Typing relate them to the keys,
--   Shell/Entered is about the line that is read and its place in the history, and Shell/Rounds
--   is about the loop of read_command. Shell/Registry is the table of commands and their execution,
--   with Shell/Names and Dispatch for the search, and Shell/Main the thread that
--   reads and executes, with Shell/Session for what it runs.
-- * src/ml_ntp_client.c, the NTP client: Ntp/Time has the conversion of times and Ntp/Era its
--   range, Ntp/Client the exchange with the servers, Ntp/Closed the descriptors it opens and
--   closes, and Ntp/Clock what it sets the clock to.
-- * src/ml_one_wire.c, the DS18B20 sensor: OneWire/Sensor has the states of a reading and its
--   effects, OneWire/Messages the walks over the bytes of the kernel's messages, OneWire/Answers,
--   Walks and Life the count of responses on each queue, and OneWire/Stale what goes wrong.
-- * src/ml_network.c, interfaces and packet filters. Network/System has the calls of the kernel,
--   Network/Interface the settings of an interface, Network/Link those of an Ethernet link, and
--   Network/Commands the three shell commands. Network/Replace is the table of filters that accepts
--   or drops all, Network/Filter the calls that set and get tables, and Network/Log the log of one.
--   Network/Configured, Flags and Kept relate the settings to what the kernel holds afterwards,
--   Network/Placed, Walks and Logged are about the table and its log, and Network/Balance, Closed
--   and Freed about descriptors and memory. Network/Init registers the commands with the shell, and
--   Network/Typed follows a command line from the shell to the flags of an interface.
-- * src/ml_device_mapper.c, the device mapper. DeviceMapper/System has the calls,
--   DeviceMapper/Verity the functions, DeviceMapper/Steps their order and DeviceMapper/Table the
--   parameters of the table.
-- * src/ml_worker_pool.c, the worker pool. WorkerPool/Pool has the steps of the threads, on the
--   queue of Queue/Ring, WorkerPool/Held who holds a message, WorkerPool/Moves and Safe what each
--   step keeps, WorkerPool/Progress and Stuck how far the threads have to go, and WorkerPool/Once
--   what that means for the jobs. What a job does is left open.
-- * src/ml_rtc.c, the real-time clock. Rtc/Device has the two functions, and Rtc/Kept what is read
--   back.
--
-- Prelude passes on the names of the libraries and adds Boolean tests, lists, integers and machine
-- words. Libc is what the bus and the shell rely on of bsearch() and qsort(), which are no part of
-- the repository; LibcReference shows that it can hold. The kernel that the DHCP and NTP clients,
-- ml_dd, the network functions and the device mapper call is a function from the calls so far and
-- the next one to a result.
--
-- Numbers are natural numbers, with the wrap-around of unsigned arithmetic written out; an `int`
-- that may be negative is an integer. Most loops of the C files are recursion on lists; the others
-- run on fuel. The loop of a tick has one round for each timer of the list and one more: a timer
-- that was inserted again has ticks left, so no timer is met twice. The loop of the option parser
-- has one more round than bytes: each round reads at least one. So has the loop of a load, if
-- fscanf() does not add to the file. Dhcp/Fuel and LogObject/Fuel show both. The loop of
-- read_command has a round for each byte of the input, which Shell/Rounds is about, and the loop of
-- shell_main one for each byte and one more. The loops that delete a word have a round for each
-- character of the line, and each deletes one. Completion has a round for each character of the
-- first match and one more, each of which takes one. The loop over the commands of a 1-wire message
-- has one more round than the message has bytes, and each round takes four at least; the loop over
-- the messages is not bounded in the code, and takes any number of rounds. The loop of ml_dd has a
-- round for each byte to copy, and each copies one at least. The loop of ml_hexdump_file has a
-- round for each 256 bytes and one more. The loop over a table of filters takes any number of
-- rounds; Network/Walks shows that one for each byte is enough, unless an entry has a next offset
-- of 0.
--
-- Not modelled: what the other parts log, but for a table of filters; the threads and the poll()
-- call of the handlers; what the shell prints and its own commands; the rest of src/ml.c; the
-- socket, the message headers and the thread of src/ml_one_wire.c; src/ml_libc.c, which calls the C
-- library; and ml_log_object_hexdump and ml_log_object_module_init of src/ml_log_object.c.
pub mod Bus
pub mod DeviceMapper
pub mod Dhcp
pub mod Inet
pub mod Libc
pub mod LibcReference
pub mod LogObject
pub mod Message
pub mod Network
pub mod Ntp
pub mod OneWire
pub mod Prelude
pub mod Queue
pub mod Rtc
pub mod Shell
pub mod Timer
pub mod Utilities
pub mod WorkerPool
