-- ===== src/Lib.antt =====
-- dumbos_platform_system_connectivity_wificond: wificond, the daemon that talks to the kernel's wifi
-- drivers over netlink (nl80211) for the Android framework.
--
-- The parts, and the files that model them:
--   Attribute    net/nl80211_attribute.{h,cpp}: attributes as byte vectors, their constructors,
--                GetAttributeImpl, the getters, the list readers and Merge.
--   Packet       net/nl80211_packet.{h,cpp}: packets as byte vectors, with headers in front.
--   Wiphy        net/netlink_utils.cpp: ParseWiphyInfoFromPacket, which reads what a radio can do.
--   Manager      net/netlink_manager.{h,cpp}: sequence numbers and subscriptions (State), the messages
--                of a datagram (Receive for handlers that leave the manager alone, as AppendPacket does;
--                Running for any handlers, which run inside the loop, may change the handlers and overwrite
--                ReceiveBuffer), requests and responses (Request, Calls), multicast messages (Dispatch, with
--                the events of Mlme, net/mlme_event.cpp), and Start with the discovery of the netlink family
--                (Family).
--   Scanner      scanning/scanner_impl.{h,cpp}: single and scheduled scans, their state and callbacks.
--   Utils        net/netlink_utils.{h,cpp}: the requests of NetlinkUtils and how it reads the answers, with
--                the merging of split wiphy dumps and GetWiphyInfo (Utils.Split).
--   Requests     scanning/scan_utils.cpp: the packets of Scan, StartScheduledScan, StopScheduledScan and
--                AbortScan, and what these calls return.
--   Results      scanning/scan_utils.cpp: GetScanResult, which reads scan results and their ssids.
--   Parcels      the parcelables of scanning/ and client/ and device_wiphy_capabilities.cpp: what they write to
--                an android::Parcel and read from it, over any parcel that keeps its promise (Interface).
--   Ap           ap_interface_impl.cpp, ap_interface_binder.{h,cpp}: station events and channel switches on
--                their way to the callback of a client.
--   Client       client_interface_impl.{h,cpp}: association state, signal polls, management frames; Lifetime
--                adds construction and destruction, and client_interface_binder.{h,cpp}.
--   Server       server.{h,cpp}: callbacks, interfaces, and the map from bands to radios.
--   Nl80211      net/kernel-header-latest/nl80211.h: the enumerators that the code names.
--   Uapi         constants of linux/netlink.h and linux/genetlink.h, which are not in the repository.
--   Base         what all parts share; Examples applies the theorems at concrete inputs.
-- Manager reads packets, Packet finds attributes with Attribute, and Wiphy and Mlme decode them. Scanner
-- and Server are driven by the client's calls and by the events that Manager dispatches.
--
-- How the code is modelled. A byte vector is a list of natural numbers, an integer of w bytes is read
-- and written in little-endian order with its wrap-around written out. A C++ object that a call changes
-- is a record that goes in and comes out. A call that may fail returns an Outcome: `ok` with a value,
-- `fails` for false or a null pointer, `hangs` for a loop that does not end, `faults` for a read outside
-- a buffer, a reversed range or a failed CHECK. The C++ names are kept, in lower case with underscores.
-- Objects, callbacks and interface names are known by numbers. What the kernel, poll() and the callers
-- answer are arguments.
--
-- Fuel. The loops over attributes and over messages take fuel. The search for an attribute gets one unit
-- more than there are bytes, as do GetAllAttributes, the list readers and the search for an ssid; a
-- round that moves on takes at least four bytes, and a round that does not move on never ends, whatever
-- the fuel. The loop over the messages of a datagram gets one unit more than the datagram has bytes;
-- each round takes at least 16.
--
-- Not modelled: sockets, of which only the answers come in; binder, the event loop, start-up and
-- logging, which are calls of the platform. SendMessageInternal returns false where sendto() fails, as
-- it does with the interceptor of netlink off; with the interceptor on, its CHECK ends the process
-- there. GetWiphyInfo, where a message of the radio fails to parse, drops what was read of its bands
-- before it goes on with the next message.
pub mod Base
pub mod Uapi
pub mod Ap
pub mod Attribute
pub mod Nl80211
pub mod Packet
pub mod Wiphy
pub mod Scanner
pub mod Manager
pub mod Mlme
pub mod Server
pub mod Results
pub mod Requests
pub mod Utils
pub mod Parcels
pub mod Client
mod Examples
