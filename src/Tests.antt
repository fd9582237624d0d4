-- ===== src/Tests.antt =====
-- The theorems applied to concrete data, by the part of the program that they are about.
mod Transfer
mod Downloads
mod Sessions
mod Clients
mod Hosts
mod Services
mod Lists
mod Program
mod Files
mod Messages
mod Keys
mod Requests
