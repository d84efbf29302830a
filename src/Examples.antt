-- ===== src/Examples.antt =====
-- Applications of the theorems at concrete inputs: packets, attributes, requests and servers.
mod Bytes
mod Scans
mod Messages
mod Servers
mod Wiphys
mod Clients
mod Requests
mod Answers
mod Parcels
mod Starts
