-- ===== src/Lib.antt =====
-- UPUSH chat: a server that keeps the addresses of clients by nickname, and a client that sends
-- text messages to other clients over UDP.
--
-- The parts and their files. The C files stand at the root of the repository.
--
-- - base_linked_list.c is the doubly linked list under every list of the program. Memory has the
--   memory that it works in (nodes at addresses, faults, a record of callbacks) and LinkedList the
--   functions, in the C code's order of reads and writes. Below it, Shape says what it means that a
--   memory holds a list, Detach, Insert, Remove, Ends, Release, Walk and Iterate treat one group of
--   functions each, and View relates a list to the sequence of objects behind its data pointers.
--   The operations of that sequence are in Sequence; the server is stated over them.
--   The list header and the iterator are values. A result of malloc is an argument.
--   Sequence/Ends has the lemmas on the last element of a sequence and on a search.
-- - common.c: Common has parse_message and the tests on words, over the functions of the C library
--   in Strings (strtok, strcmp, %d); Common/Words, Common/Contents, Common/Pieces and Common/Nick have their lemmas,
--   Strings/Numbers those on printing and reading a number, Strings/Search those on strstr. Startup
--   has the tests of results, the socket and the loss probability, and how a program may end before
--   its loop.
-- - time_functions.c: TimeFunctions, with integers from Int.
-- - send_packet.c and the address functions of common.c: Network. The socket library is the
--   parameter Net (htons, ntohs, inet_ntop, inet_pton, with what their manual pages promise), and
--   Env has what the calls of one round return: clock, allocations, random draw, sendto.
--   Network/Laws has the comparison of an address with itself.
-- - server_client.c, server_client_list.c: ServerClient. upush_server.c: Server, whose function
--   round is one turn of the main loop and serve a whole run over given events. A result is a value,
--   the end of the process (quit) or undefined behaviour (fault), in Outcome. Below Server,
--   Requests and Ascii treat the form of the messages, Clients the list by nick, Changes and Registry what
--   rounds do to it, Register and Lookup the two handlers, Buffers and Safety the bounds. Directory
--   is what the server promises, with a function from nicks to clients for the list, and Refines
--   compares the two. Start has the way of main up to the loop, Started says when it gets there, and
--   Main has the whole program.
-- - blocked_nick.c, blocked_nick_list.c: BlockedNicks, and BlockedNicks/Laws on the set of nicks.
-- - message.c, message_list.c, contact.c, contact_list.c: Contacts; Contacts/Fifo compares the queue
--   of a contact with a first-in first-out queue, Contacts/Iterator has the iterator over the memory
--   of the linked list, and Contacts/Sweep a loop that takes contacts off under it.
-- - upush_client.c, client_server.c: Client has the state of the client and its actions, which pass
--   the state on and take what the calls outside the program return from World, by their number.
--   Below it, ToServer has client_to_server_com.c, ToClient client_to_client_com.c, Input the reading
--   and checking of a line, Loop what the user can ask for, and Receive the datagrams and the turns
--   of the main loop: turn is one of them and run a whole run over given reports of select.
--   Start has main up to the loop, Started and Connected say when it gets there. Characters, Answer
--   and LookUp treat what a look-up makes of the server's answer, Asking how often it asks;
--   Heartbeat treats the registration that is repeated; Packets,
--   Delivery, Link, Exchange, Shown and Delivered treat two clients that send messages and
--   acknowledgements to each other. Rounds is the relation between what the two are before and after
--   losses, resends and newly typed messages; Leaves, Resent, Posted and Kept treat one of its steps
--   each, and Lossy its runs. FirstMessage, FirstContact and Acquainted treat two clients that do not
--   know each other yet. Resends treats a message that is not acknowledged, Early a turn in
--   which nothing is due.
--   Typed treats Input, Receipt a message that arrives, Acknowledging an acknowledgement; Queue,
--   Keeps, Sending, Turns, Runs and Invariant treat what stays true of the contacts.
-- - Tests has the theorems at concrete inputs, and runs of the code.
--
-- Fuel and bounds. The loops of the linked list take fuel, and every theorem about one holds for
-- any fuel above the length of the list. The main loops recur on the list of their events, and
-- the wait of a look-up on what it hears before select's timer runs out. BUFSIZE is 4096, as in
-- common.h. Times and ports are mathematical numbers; seconds since 1970 and their differences
-- are taken not to overflow. In Rounds a packet is lost on its way, between calls of sendto that
-- succeed, and of the acknowledgements of a message at most one arrives, right behind the message.
-- A second or a late acknowledgement, a heartbeat and every other datagram are left out of Rounds:
-- an acknowledgement too many takes a message off the queue that the recipient may not have seen.
-- The isdigit of a byte of 128 or more is undefined behaviour; 255 is counted with the others,
-- though it may be the value of EOF. FD_SETSIZE is a parameter of the server's main, whose FD_SET
-- is undefined behaviour for a descriptor outside of the set.
--
-- Not modelled: printing, the interrupt signal, the release of memory at the end of the process, and
-- the client's own calls of FD_SET (upush_client.c, client_to_server_com.c).
-- The results of socket, bind and the first select are inputs, and so is what the buffer of the
-- client still holds when the standard input has ended. The loss probability is kept in percent.
mod Base
pub mod Memory
pub mod Sequence
pub mod LinkedList
pub mod Int
pub mod TimeFunctions
pub mod Strings
pub mod Common
pub mod Outcome
pub mod Startup
pub mod Network
pub mod ServerClient
pub mod Server
pub mod BlockedNicks
pub mod Contacts
pub mod Client
mod Tests
